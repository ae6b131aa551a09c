-- ===== src/Api/Limits/Capped.antt =====
-- Histories of requests and sweeps (src/api/auth.ts): how often a key is let through.
use xcoder.Prelude.{
  ℕ, ◌-◌, ◌≤◌, ◌≡◌, sym, ◌∙◌, subst, inl, inr, Bool, true, false, not, ◌&&◌, Option, none, some,
  List, [], ◌∷◌, ◌++◌, length, leb, keep, All, arith, or_default, Bool-cases, if◌then◌else◌,
  if-both, keep-none,
}
use xcoder.Prelude.Text.{Text, same_text}
use xcoder.Prelude.Keys.{
  text_keys, lookup, insert, lookup-insert_self, lookup-insert_ne, same_text-eq, same_text_refl,
}
use xcoder.Prelude.Keys.Distinct.{
  Distinct, insert-Distinct, lookup-keep_values, keep_values-Distinct, filtered,
}
use xcoder.Api.Limits.{
  Limit, Answer, admitted, limited, Attempts, is_recent, attempts_of, check_rate_limit_with_config,
  most_recent, sweep,
}
use xcoder.Api.Limits.Windows.{
  Rising, Book, empty-Book, later-Book, trimmed-Book, charged-Book, most_recent-most,
}

pub data Event : Type 0 where
  requests : Text → ℕ → Event
  sweeps : ℕ → Event

abbrev pub time_of : Event → ℕ
time_of (requests key now) = now
time_of (sweeps now) = now

abbrev pub admits : Answer → Bool
admits admitted = true
admits (limited r) = false

-- Events whose times do not fall, from a clock on.
abbrev pub InOrder : ℕ → List Event → Type 0
InOrder clock [] = Unit
InOrder clock (e ∷ es) = (clock ≤ time_of e) × InOrder (time_of e) es

abbrev pub clock_after : ℕ → List Event → ℕ
clock_after clock [] = clock
clock_after clock (e ∷ es) = clock_after (time_of e) es

-- Every kind of key has a limit of its own.
module _ (limits : Text → Limit) (interval : ℕ) where
  unfoldable pub serve : Event → Attempts → Attempts
  serve (requests key now) store = (check_rate_limit_with_config (limits key) key now store).1
  serve (sweeps now) store = sweep interval now store

  unfoldable pub replay : List Event → Attempts → Attempts
  replay [] store = store
  replay (e ∷ es) store = replay es (serve e store)

  -- The times at which `key` was let through, after those of the past.
  unfoldable pub logged : Text → Event → Attempts → List ℕ → List ℕ
  logged key (requests j now) store past =
      if same_text j key && admits (check_rate_limit_with_config (limits j) j now store).0
      then past ++ now ∷ []
      else past
  logged key (sweeps now) store past = past

  unfoldable pub admissions : Text → List Event → Attempts → List ℕ → List ℕ
  admissions key [] store past = past
  admissions key (e ∷ es) store past = admissions key es (serve e store) (logged key e store past)

  pub record Kept (key : Text) (clock : ℕ) (store : Attempts) (past : List ℕ) : Type 0 where
    pub distinct : Distinct store
    pub book : Book (limits key) clock (attempts_of key store) past

  module _ (wide : (key : Text) → (limits key).window ≤ interval) (key : Text) where
    insert_other-Kept :
        (clock now : ℕ) (store : Attempts) (past ts : List ℕ) (j : Text)
        → clock ≤ now
        → same_text j key ≡ false
        → Kept key clock store past
        → Kept key now (insert j ts store) past
    insert_other-Kept clock now store past ts j h other k = record {
      distinct = insert-Distinct j ts store k.distinct;
      book =
          subst (λ o. Book (limits key) now (or_default o []) past)
            (sym (lookup-insert_ne key j ts store other)) (later-Book _ clock now _ past k.book h);
    }

    insert_own-Kept :
        (now : ℕ) (store : Attempts) (past ts : List ℕ)
        → Distinct store
        → Book (limits key) now ts past
        → Kept key now (insert key ts store) past
    insert_own-Kept now store past ts d b = record {
      distinct = insert-Distinct key ts store d;
      book =
          subst (λ o. Book (limits key) now (or_default o []) past)
            (sym (lookup-insert_self key ts store)) b;
    }

    own-Kept :
        (clock now : ℕ) (store : Attempts) (past : List ℕ)
        → clock ≤ now
        → Kept key clock store past
        → Kept key now (serve (requests key now) store) (logged key (requests key now) store past)
    unfolding serve logged check_rate_limit_with_config
    own-Kept clock now store past h k =
        if-both {A = Answer × Attempts}
          (λ r.
            Kept key now r.1 (if same_text key key && admits r.0 then past ++ now ∷ [] else past))
          (leb l.most (length recent))
          (λ full. rw same (
            insert_own-Kept now store past recent k.distinct
              (trimmed-Book l clock now ts past k.book h)))
          (λ under. rw same (
            insert_own-Kept now store (past ++ now ∷ []) (recent ++ now ∷ []) k.distinct
              (charged-Book l clock now ts past k.book h under)))
      where
        same : same_text key key ≡ true
        same = same_text_refl key

        l : Limit
        l = limits key

        ts : List ℕ
        ts = attempts_of key store

        recent : List ℕ
        recent = keep (is_recent l.window now) ts

    other-Kept :
        (clock now : ℕ) (store : Attempts) (past : List ℕ) (j : Text)
        → clock ≤ now
        → same_text j key ≡ false
        → Kept key clock store past
        → Kept key now (serve (requests j now) store) (logged key (requests j now) store past)
    unfolding serve logged check_rate_limit_with_config
    other-Kept clock now store past j h other k = rw other (
        if-both {A = Answer × Attempts} (λ r. Kept key now r.1 past) (leb (limits j).most _)
          (λ _. insert_other-Kept clock now store past _ j h other k)
          (λ _. insert_other-Kept clock now store past _ j h other k))

    pub requests-Kept :
        (clock now : ℕ) (store : Attempts) (past : List ℕ) (j : Text)
        → clock ≤ now
        → Kept key clock store past
        → Kept key now (serve (requests j now) store) (logged key (requests j now) store past)
    requests-Kept clock now store past j h k = elim (Bool-cases (same_text j key)) [
      | inl same ↦
          subst
            (λ i.
              Kept key now (serve (requests i now) store) (logged key (requests i now) store past))
            (sym (same_text-eq j key same)) (own-Kept clock now store past h k)
      | inr other ↦ other-Kept clock now store past j h other k
    ]

    -- Behind a last attempt that is old there are only old ones.
    all_old :
        (now later last : ℕ) (ts : List ℕ)
        → now ≤ later
        → interval ≤ now - last
        → All (λ u. u ≤ last) ts
        → All (λ u. is_recent (limits key).window later u ≡ false) ts
    unfolding is_recent
    all_old now later last [] g idle a = tt
    all_old now later last (t ∷ ts) g idle a =
        (ground (arith, wide key, a.0), all_old now later last ts g idle a.1)

    old :
        (now later : ℕ) (ts : List ℕ)
        → Rising ts
        → now ≤ later
        → interval ≤ now - most_recent ts
        → All (λ u. is_recent (limits key).window later u ≡ false) ts
    old now later ts r g idle = all_old now later (most_recent ts) ts g idle (most_recent-most ts r)

    -- What a sweep leaves of a key counts the same.
    swept-Book :
        (now : ℕ) (past : List ℕ) (o : Option (List ℕ))
        → Book (limits key) now (or_default o []) past
        → Book
            (limits key)
            now
            (or_default (filtered (λ ts. not (leb interval (now - most_recent ts))) o) [])
            past
    swept-Book now past none b = b
    swept-Book now past (some ts) b =
        if-both (λ o. Book (limits key) now (or_default o []) past)
          (not (leb interval (now - most_recent ts))) (λ _. b)
          (λ idle. record {
            rising = tt;
            so_far = tt;
            agree = λ later g.
                sym (
                  keep-none (is_recent (limits key).window later) ts
                    (old now later ts b.rising g (ground (arith, idle))))
                ∙ b.agree later g;
            few = b.few;
            stored = omega arith;
          })

    sweeps-Kept :
        (clock now : ℕ) (store : Attempts) (past : List ℕ)
        → clock ≤ now
        → Kept key clock store past
        → Kept key now (serve (sweeps now) store) past
    unfolding serve sweep
    sweeps-Kept clock now store past h k = record {
      distinct = keep_values-Distinct _ store k.distinct;
      book =
          subst (λ o. Book (limits key) now (or_default o []) past)
            (sym (lookup-keep_values _ key store k.distinct))
            (swept-Book now past (lookup key store) (later-Book _ clock now _ past k.book h));
    }

    pub replay-Kept :
        (es : List Event) (clock : ℕ) (store : Attempts) (past : List ℕ)
        → InOrder clock es
        → Kept key clock store past
        → Kept key (clock_after clock es) (replay es store) (admissions key es store past)
    unfolding replay admissions logged
    replay-Kept [] clock store past o k = k
    replay-Kept (requests j now ∷ es) clock store past o k =
        replay-Kept es now (serve (requests j now) store) (logged key (requests j now) store past)
          o.1 (requests-Kept clock now store past j o.0 k)
    replay-Kept (sweeps now ∷ es) clock store past o k =
        replay-Kept es now (serve (sweeps now) store) past o.1
          (sweeps-Kept clock now store past o.0 k)

    pub empty-Kept : Kept key 0 [] []
    unfolding lookup
    empty-Kept = record { distinct = tt; book = empty-Book (limits key) }

-- Over every history of requests and sweeps in order of time, from an empty store, a key is let through at
-- most as often as its limit says within any window that ends at or after the history, if the sweep waits
-- at least as long as every window.
pub admissions-within :
    (limits : Text → Limit) (interval : ℕ)
    → ((key : Text) → (limits key).window ≤ interval)
    → (key : Text) (es : List Event) (now : ℕ) → InOrder 0 es
    → clock_after 0 es ≤ now
    → length (keep (is_recent (limits key).window now) (admissions limits interval key es [] []))
      ≤ (limits key).most
admissions-within limits interval wide key es now o h =
    (replay-Kept limits interval wide key es 0 [] [] o
        (empty-Kept limits interval wide key)).book.few
      now h
