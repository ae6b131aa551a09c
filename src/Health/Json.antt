-- ===== src/Health/Json.antt =====
-- JSON values as texts: `stableStringify` of src/core/duplicateActionDetector.ts and the `JSON.stringify`
-- that src/core/stepScorer.ts compares. How a string is quoted is an argument.
use xcoder.Prelude.{ℕ, ltb, ◌==◌, Bool, true, false, List, [], ◌∷◌, ◌++◌, map, if◌then◌else◌}
use xcoder.Prelude.Text.{Text}

-- `atom` is null, a Boolean or a number, as it is printed. The keys of an object are distinct.
mutual
  pub data Json : Type 0 where
    atom text : Text → Json
    array : Items → Json
    object : Fields → Json

  pub data Items : Type 0 where
    no_items : Items
    item : Json → Items → Items

  pub data Fields : Type 0 where
    no_fields : Fields
    field : Text → Json → Fields → Fields

-- `parts.join(",")`
unfoldable pub join : List Text → Text
join [] = []
join (part ∷ []) = part
join (part ∷ next ∷ parts) = part ++ 44 ∷ join (next ∷ parts)

-- The order of code units.
unfoldable pub before : Text → Text → Bool
before [] t = true
before (c ∷ s) [] = false
before (c ∷ s) (d ∷ t) = let rest = before s t in if c == d then rest else ltb c d

abbrev pub KeyedText : Type 0
KeyedText = Text × Text

unfoldable pub insert_key : KeyedText → List KeyedText → List KeyedText
unfolding before
insert_key e [] = e ∷ []
insert_key e (f ∷ fs) =
    let rest = insert_key e fs in if before e.0 f.0 then e ∷ f ∷ fs else f ∷ rest

-- `Object.keys(value).sort()`, with the printed values
unfoldable pub sort_keys : List KeyedText → List KeyedText
unfolding insert_key
sort_keys [] = []
sort_keys (e ∷ es) = insert_key e (sort_keys es)

module _ (quote : Text → Text) where
  abbrev pub printed_field : KeyedText → Text
  printed_field e = quote e.0 ++ 58 ∷ e.1

  unfoldable pub brackets : ℕ → List Text → ℕ → Text
  unfolding join
  brackets left parts right = left ∷ join parts ++ right ∷ []

  unfoldable mutual
    pub stable_stringify : Json → Text
    stable_stringify (atom t) = t
    stable_stringify (text s) = quote s
    stable_stringify (array xs) = brackets 91 (stable_items xs) 93
    stable_stringify (object fs) =
        brackets 123 (map printed_field (sort_keys (stable_fields fs))) 125

    stable_items : Items → List Text
    stable_items no_items = []
    stable_items (item x xs) = stable_stringify x ∷ stable_items xs

    stable_fields : Fields → List KeyedText
    stable_fields no_fields = []
    stable_fields (field k x fs) = (k, stable_stringify x) ∷ stable_fields fs

  unfoldable mutual
    pub stringify : Json → Text
    stringify (atom t) = t
    stringify (text s) = quote s
    stringify (array xs) = brackets 91 (string_items xs) 93
    stringify (object fs) = brackets 123 (map printed_field (string_fields fs)) 125

    string_items : Items → List Text
    string_items no_items = []
    string_items (item x xs) = stringify x ∷ string_items xs

    string_fields : Fields → List KeyedText
    string_fields no_fields = []
    string_fields (field k x fs) = (k, stringify x) ∷ string_fields fs
