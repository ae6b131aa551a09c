-- ===== src/Saas/Ids.antt =====
-- The ids of tenants (`slugify` of src/saas/tenantStore.ts, `TENANT_ID_RE` of src/saas/storage.ts).
use xcoder.Prelude.{
  ℕ, ◌==◌, leb, Bool, true, false, ◌&&◌, ◌||◌, [], ◌∷◌, ◌++◌, length, take, every, if◌then◌else◌,
}
use mathlib.Core.List.{reverse}
use xcoder.Prelude.Text.{Text, codes, non_empty}

unfoldable pub is_alphanumeric : ℕ → Bool
is_alphanumeric c = (leb 97 c && leb c 122) || (leb 48 c && leb c 57)

abbrev pub is_id_char : ℕ → Bool
is_id_char c = is_alphanumeric c || c == 45

-- `replace(/[^a-z0-9]+/g, "-")`: each run of other characters becomes one dash
unfoldable pub dashes : Bool → Text → Text
dashes in_run [] = []
dashes in_run (c ∷ s) =
    let kept = c ∷ dashes false s in
    let rest = dashes true s in
    if is_alphanumeric c then kept else if in_run then rest else 45 ∷ rest

unfoldable pub drop_dashes : Text → Text
drop_dashes [] = []
drop_dashes (c ∷ s) = let rest = drop_dashes s in if c == 45 then rest else c ∷ s

unfoldable pub slugify : (Text → Text) → Text → Text
unfolding dashes drop_dashes
slugify lower name =
    let s = take 30 (reverse (drop_dashes (reverse (drop_dashes (dashes false (lower name)))))) in
    if leb 2 (length s) then s else codes "t-" ++ (if non_empty s then s else codes "x")

-- `/^[a-z0-9][a-z0-9-]{1,40}$/`
unfoldable pub valid_tenant_id : Text → Bool
valid_tenant_id [] = false
valid_tenant_id (c ∷ s) =
    is_alphanumeric c && every is_id_char s && leb 1 (length s) && leb (length s) 40
