-- ===== src/Api/Limits/Windows.antt =====
-- No window of time has more admitted requests than its limit (src/api/auth.ts).
use xcoder.Prelude.{
  ℕ, ◌≤◌, ◌≡◌, refl, sym, ap, ◌∙◌, subst, Bool, true, false, List, [], ◌∷◌, ◌++◌, length, leb, keep,
  All, arith, if-both, All-append, All-keep, keep-append, keep-keep, length-keep_mono,
  length-append, length-keep-le,
}
use xcoder.Prelude.Keys.{text_keys}
use xcoder.Api.Limits.{Limit, is_recent, most_recent, last_from}

abbrev pub Rising : List ℕ → Type 0
Rising [] = Unit
Rising (t ∷ ts) = All (λ u. t ≤ u) ts × Rising ts

le_trans : (t now : ℕ) (ts : List ℕ) → t ≤ now → All (λ u. now ≤ u) ts → All (λ u. t ≤ u) ts
le_trans t now [] h a = tt
le_trans t now (x ∷ xs) h a = (omega (arith, a.0), le_trans t now xs h a.1)

-- Every time of a rising list is at most its last one.
last_from-most : (t : ℕ) (ts : List ℕ) → Rising (t ∷ ts) → All (λ u. u ≤ last_from t ts) (t ∷ ts)
last_from-most t [] h = (omega arith, tt)
last_from-most t (x ∷ xs) h =
    let rest = last_from-most x xs h.1 in (omega (arith, h.0.0, rest.0), rest)

pub most_recent-most : (ts : List ℕ) → Rising ts → All (λ u. u ≤ most_recent ts) ts
most_recent-most [] h = tt
most_recent-most (t ∷ ts) h = last_from-most t ts h

pub keep-Rising : (p : ℕ → Bool) (ts : List ℕ) → Rising ts → Rising (keep p ts)
keep-Rising p [] h = tt
keep-Rising p (t ∷ ts) h =
    if-both Rising (p t) (λ _. (All-keep (λ u. t ≤ u) p ts h.0, keep-Rising p ts h.1))
      (λ _. keep-Rising p ts h.1)

pub append-Rising :
    (ts : List ℕ) (now : ℕ) → Rising ts → All (λ u. u ≤ now) ts → Rising (ts ++ now ∷ [])
append-Rising [] now h a = (tt, tt)
append-Rising (t ∷ ts) now h a =
    (All-append (λ u. t ≤ u) ts (now ∷ []) h.0 (a.0, tt), append-Rising ts now h.1 a.1)

pub recent-earlier :
    (window now later t : ℕ)
    → now ≤ later
    → is_recent window later t ≡ true
    → is_recent window now t ≡ true
unfolding is_recent
recent-earlier window now later t h r = ground arith

-- What is on record for a key, against the times at which it was admitted.
pub record Book (l : Limit) (clock : ℕ) (ts past : List ℕ) : Type 0 where
  pub rising : Rising ts
  pub so_far : All (λ u. u ≤ clock) ts
  pub agree :
      (later : ℕ)
      → clock ≤ later
      → keep (is_recent l.window later) ts ≡ keep (is_recent l.window later) past
  pub few : (later : ℕ) → clock ≤ later → length (keep (is_recent l.window later) past) ≤ l.most
  pub stored : length ts ≤ l.most

weaker : (c d : ℕ) (ts : List ℕ) → c ≤ d → All (λ u. u ≤ c) ts → All (λ u. u ≤ d) ts
weaker c d [] h a = tt
weaker c d (t ∷ ts) h a = (omega (arith, a.0), weaker c d ts h a.1)

pub empty-Book : (l : Limit) → Book l 0 [] []
empty-Book l = record {
  rising = tt;
  so_far = tt;
  agree = λ later h. refl;
  few = λ later h. omega arith;
  stored = omega arith;
}

module _ (l : Limit) (clock now : ℕ) (ts past : List ℕ) (b : Book l clock ts past)
    (h : clock ≤ now) where
  pub later-Book : Book l now ts past
  later-Book = record {
    rising = b.rising;
    so_far = weaker clock now ts h b.so_far;
    agree = λ later g. b.agree later (omega arith);
    few = λ later g. b.few later (omega arith);
    stored = b.stored;
  }

  still_recent :
      (later : ℕ)
      → now ≤ later
      → keep (is_recent l.window later) (keep (is_recent l.window now) ts)
        ≡ keep (is_recent l.window later) past
  still_recent later g =
      keep-keep (is_recent l.window now) (is_recent l.window later)
        (λ t. recent-earlier l.window now later t g) ts
      ∙ b.agree later (omega arith)

  pub trimmed-Book : Book l now (keep (is_recent l.window now) ts) past
  trimmed-Book = record {
    rising = keep-Rising (is_recent l.window now) ts b.rising;
    so_far = All-keep (λ u. u ≤ now) (is_recent l.window now) ts (weaker clock now ts h b.so_far);
    agree = still_recent;
    few = λ later g. b.few later (omega arith);
    stored = omega (arith, length-keep-le (is_recent l.window now) ts, b.stored);
  }

  room :
      (later : ℕ)
      → now ≤ later
      → leb l.most (length (keep (is_recent l.window now) ts)) ≡ false
      → length (keep (is_recent l.window later) (past ++ now ∷ [])) ≤ l.most
  room later g under =
      let w = l.window in
      ground (
        arith,
        under,
        keep-append (is_recent w later) past (now ∷ []),
        length-append (keep (is_recent w later) past) (keep (is_recent w later) (now ∷ [])),
        length-keep-le (is_recent w later) (now ∷ []),
        length-keep_mono (is_recent w now) (is_recent w later) (λ t. recent-earlier w now later t g)
            past,
        b.agree now h,
      )

  pub charged-Book :
      leb l.most (length (keep (is_recent l.window now) ts)) ≡ false
      → Book l now (keep (is_recent l.window now) ts ++ now ∷ []) (past ++ now ∷ [])
  charged-Book under = record {
    rising =
        append-Rising (keep (is_recent l.window now) ts) now trimmed-Book.rising
          trimmed-Book.so_far;
    so_far = All-append (λ u. u ≤ now) _ (now ∷ []) trimmed-Book.so_far (omega arith, tt);
    agree = λ later g.
        keep-append (is_recent l.window later) _ _
        ∙ ap (λ r. r ++ keep (is_recent l.window later) (now ∷ [])) (still_recent later g)
        ∙ sym (keep-append (is_recent l.window later) past _);
    few = λ later g. room later g under;
    stored = subst (λ n. n ≤ l.most) (sym (length-append _ (now ∷ []))) (ground (arith, under));
  }
