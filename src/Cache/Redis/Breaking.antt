-- ===== src/Cache/Redis/Breaking.antt =====
-- When the circuit breaker opens (src/cache/backends.ts).
use xcoder.Prelude.{
  ℕ, suc, ◌+◌, ◌≤◌, ◌<◌, ◌≡◌, refl, sym, ap, subst, ◌∙◌, true, false, List, [], ◌∷◌, ◌++◌, length,
  length-append, arith, All, if-both, leb, ◌↔◌,
}
use mathlib.Core.List.{append_assoc, append-nil}
use xcoder.Cache.Redis.{RedisOptions, Breaker, Answer, replied, failed, good, bad, settle}

-- A command that was sent has settled.
pub record Settlement {ℓ} (A : Type ℓ) : Type ℓ where
  pub at : ℕ
  pub answer : Answer A

abbrev pub closed : Breaker
closed = record { fails = 0; open_until = 0 }

bad-opens :
    (o : RedisOptions) (t : ℕ) (b : Breaker)
    → 0 < o.breaker_ms
    → 0 < b.open_until
    → 0 < (bad o t b).open_until
unfolding bad
bad-opens o t b m h =
    if-both {A = Breaker} (λ r. 0 < r.open_until) (leb o.breaker_threshold (suc b.fails))
      (λ _. omega arith) (λ _. h)

above : (a b : ℕ) → leb a b ≡ false → b < a
above a b f = ground arith

reached : (t f n : ℕ) → leb t (suc f) ≡ true → f < t → n ≡ suc f → n ≡ t
reached t f n e lt k = ground arith

zero_positive : (n : ℕ) → n ≡ 0 → ¬ (0 < n)
zero_positive n e h = omega arith

module _ {ℓ} {A : Type ℓ} (o : RedisOptions) where
  unfoldable pub settle_all : List (Settlement A) → Breaker → Breaker
  settle_all [] b = b
  settle_all (e ∷ es) b = settle_all es (settle o e.at e.answer b)

  abbrev IsFailure : Settlement A → Type ℓ
  IsFailure e = e.answer ≡ failed

  -- So many failures in a row, with what settled before and after them.
  pub record FailuresWithin (n : ℕ) (es : List (Settlement A)) : Type ℓ where
    pub before : List (Settlement A)
    pub run : List (Settlement A)
    pub after : List (Settlement A)
    pub split : es ≡ before ++ (run ++ after)
    pub long : length run ≡ n
    pub failing : All IsFailure run

  settle-opens :
      (t : ℕ) (a : Answer A) (b : Breaker)
      → 0 < o.breaker_ms
      → 0 < b.open_until
      → 0 < (settle o t a b).open_until
  unfolding settle good
  settle-opens t (replied a) b m h = h
  settle-opens t failed b m h = bad-opens o t b m h

  -- Once it has opened, the time until which it is open is kept or put later.
  stays :
      (es : List (Settlement A)) (b : Breaker)
      → 0 < o.breaker_ms
      → 0 < b.open_until
      → 0 < (settle_all es b).open_until
  unfolding settle_all
  stays [] b m h = h
  stays (e ∷ es) b m h = stays es _ m (settle-opens e.at e.answer b m h)

  settle-below :
      (t : ℕ) (a : Answer A) (b : Breaker)
      → 0 < o.breaker_threshold
      → (settle o t a b).fails < o.breaker_threshold
  unfolding settle good bad
  settle-below t (replied a) b h = h
  settle-below t failed b h =
      if-both {A = Breaker} (λ r. r.fails < o.breaker_threshold)
        (leb o.breaker_threshold (suc b.fails)) (λ _. h)
        (λ f. above o.breaker_threshold (suc b.fails) f)

  all-below :
      (es : List (Settlement A)) (b : Breaker)
      → 0 < o.breaker_threshold
      → b.fails < o.breaker_threshold
      → (settle_all es b).fails < o.breaker_threshold
  unfolding settle_all
  all-below [] b h k = k
  all-below (e ∷ es) b h k = all-below es _ h (settle-below e.at e.answer b h)

  settle_all-append :
      (xs ys : List (Settlement A)) (b : Breaker)
      → settle_all (xs ++ ys) b ≡ settle_all ys (settle_all xs b)
  unfolding settle_all
  settle_all-append [] ys b = refl
  settle_all-append (x ∷ xs) ys b = settle_all-append xs ys _

  run-opens :
      (run : List (Settlement A)) (b : Breaker)
      → 0 < o.breaker_ms
      → All IsFailure run
      → b.fails < o.breaker_threshold
      → o.breaker_threshold ≤ b.fails + length run
      → 0 < (settle_all run b).open_until
  unfolding settle_all settle bad
  run-opens [] b m f lt le = omega arith
  run-opens (e ∷ es) b m f lt le =
      subst (λ a. 0 < (settle_all es (settle o e.at a b)).open_until) (sym f.0)
        (if-both {A = Breaker} (λ r. 0 < (settle_all es r).open_until)
          (leb o.breaker_threshold (suc b.fails)) (λ _. stays es _ m (omega arith))
          (λ short.
            run-opens es (record b { fails = suc b.fails }) m f.1
              (above o.breaker_threshold (suc b.fails) short) (omega arith)))

  run_within-opens :
      (es : List (Settlement A))
      → 0 < o.breaker_ms
      → 0 < o.breaker_threshold
      → FailuresWithin o.breaker_threshold es
      → 0 < (settle_all es closed).open_until
  run_within-opens es m h w =
      subst (λ l. 0 < (settle_all l closed).open_until) (sym w.split)
        (subst (λ b. 0 < b.open_until) (sym (settle_all-append w.before (w.run ++ w.after) closed))
          (subst (λ b. 0 < b.open_until) (sym (settle_all-append w.run w.after _))
            (stays w.after _ m (
              run-opens w.run _ m w.failing (all-below w.before closed h h)
                (omega (arith, w.long))))))

  -- What the state says of the commands before it: still closed, with the newest failures in a row, or
  -- opened by enough of them.
  data Explained (es : List (Settlement A)) (b : Breaker) : Type ℓ where
    still_closed :
        (before run : List (Settlement A))
        → es ≡ before ++ run
        → length run ≡ b.fails
        → All IsFailure run
        → b.open_until ≡ 0
        → Explained es b
    opened : FailuresWithin o.breaker_threshold es → Explained es b

  All-append :
      (xs : List (Settlement A)) (e : Settlement A)
      → All IsFailure xs
      → IsFailure e
      → All IsFailure (xs ++ e ∷ [])
  All-append [] e h f = (f, tt)
  All-append (x ∷ xs) e h f = (h.0, All-append xs e h.1 f)

  later-FailuresWithin :
      (n : ℕ) (es : List (Settlement A)) (e : Settlement A)
      → FailuresWithin n es
      → FailuresWithin n (es ++ e ∷ [])
  later-FailuresWithin n es e w = record {
    before = w.before;
    run = w.run;
    after = w.after ++ e ∷ [];
    split =
        ap (λ l. l ++ e ∷ []) w.split
        ∙ append_assoc w.before (w.run ++ w.after) (e ∷ [])
        ∙ ap (λ l. w.before ++ l) (append_assoc w.run w.after (e ∷ []));
    long = w.long;
    failing = w.failing;
  }

  failure-Explained :
      (es before run : List (Settlement A)) (e : Settlement A) (b : Breaker)
      → es ≡ before ++ run
      → length run ≡ b.fails
      → All IsFailure run
      → b.open_until ≡ 0
      → b.fails < o.breaker_threshold
      → IsFailure e
      → Explained (es ++ e ∷ []) (bad o e.at b)
  unfolding bad
  failure-Explained es before run e b s n f shut lt fe =
      if-both {A = Breaker} (Explained (es ++ e ∷ [])) (leb o.breaker_threshold (suc b.fails))
        (λ enough. opened (record {
          before = before;
          run = run ++ e ∷ [];
          after = [];
          split =
              ap (λ l. l ++ e ∷ []) s
              ∙ append_assoc before run (e ∷ [])
              ∙ ap (λ l. before ++ l) (sym (append-nil (run ++ e ∷ [])));
          long =
              reached o.breaker_threshold b.fails _ enough lt
                (omega (arith, length-append run (e ∷ []), n));
          failing = All-append run e f fe;
        }))
        (λ _.
          still_closed before (run ++ e ∷ [])
            (ap (λ l. l ++ e ∷ []) s ∙ append_assoc before run (e ∷ []))
            (omega (arith, length-append run (e ∷ []), n)) (All-append run e f fe) shut)

  settle-Explained :
      (es : List (Settlement A)) (e : Settlement A) (b : Breaker) (a : Answer A)
      → e.answer ≡ a
      → b.fails < o.breaker_threshold
      → Explained es b
      → Explained (es ++ e ∷ []) (settle o e.at a b)
  unfolding settle good
  settle-Explained es e b a same lt (opened w) =
      opened (later-FailuresWithin o.breaker_threshold es e w)
  settle-Explained es e b (replied r) same lt (still_closed before run s n f shut) =
      still_closed (es ++ e ∷ []) [] (sym (append-nil (es ++ e ∷ []))) refl tt shut
  settle-Explained es e b failed same lt (still_closed before run s n f shut) =
      failure-Explained es before run e b s n f shut lt same

  all-Explained :
      (seen es : List (Settlement A)) (b : Breaker)
      → 0 < o.breaker_threshold
      → b.fails < o.breaker_threshold
      → Explained seen b
      → Explained (seen ++ es) (settle_all es b)
  unfolding settle_all
  all-Explained seen [] b h lt x = subst (λ l. Explained l b) (sym (append-nil seen)) x
  all-Explained seen (e ∷ es) b h lt x =
      subst (λ l. Explained l (settle_all es (settle o e.at e.answer b)))
        (append_assoc seen (e ∷ []) es)
        (all-Explained (seen ++ e ∷ []) es _ h (settle-below e.at e.answer b h)
          (settle-Explained seen e b e.answer refl lt x))

  open_run :
      (es : List (Settlement A)) (b : Breaker)
      → Explained es b
      → 0 < b.open_until
      → FailuresWithin o.breaker_threshold es
  open_run es b (opened w) h = w
  open_run es b (still_closed before run s n f shut) h =
      elim (zero_positive b.open_until shut h) [ ]

-- The breaker has opened exactly when as many commands as its threshold says have failed one after the
-- other, in the order in which they settled. Threshold and delay are not 0.
pub settle_all-opens {ℓ} :
    {A : Type ℓ} (o : RedisOptions) (es : List (Settlement A))
    → 0 < o.breaker_ms
    → 0 < o.breaker_threshold
    → (0 < (settle_all o es closed).open_until) ↔ FailuresWithin o o.breaker_threshold es
settle_all-opens o es m h = (
  λ now_open.
      open_run o es (settle_all o es closed)
        (all-Explained o [] es closed h h (still_closed [] [] refl refl tt refl)) now_open,
  run_within-opens o es m h,
)
