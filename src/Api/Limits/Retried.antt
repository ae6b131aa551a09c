-- ===== src/Api/Limits/Retried.antt =====
-- When a key that was limited is let through again (src/api/auth.ts).
use mathlib.Core.Option.{some-injective}
use xcoder.Prelude.{
  ℕ, ◌+◌, ◌-◌, ◌≤◌, ◌<◌, ◌≡◌, refl, sym, ap, ◌∙◌, subst, Bool, true, false, Option, none, some,
  List, [], ◌∷◌, length, leb, ltb, keep, All, arith, if◌then◌else◌, keep-All, length-keep-le,
  keep-keep, length-keep_mono,
}
use xcoder.Prelude.Text.{Text, same_text}
use xcoder.Prelude.Keys.{text_keys, same_text_refl}
use xcoder.Api.Limits.{
  Limit, Answer, admitted, limited, Attempts, is_recent, attempts_of, answer_recent, retry_after,
  check_rate_limit_with_config,
}
use xcoder.Api.Limits.Capped.{
  Event, requests, sweeps, InOrder, clock_after, serve, replay, logged, admissions, Kept,
  requests-Kept, replay-Kept, empty-Kept,
}
use xcoder.Api.Limits.Windows.{Book, recent-earlier}

module _ (w now most r : ℕ) where
  -- The oldest recent attempt has left the window after the wait.
  after_wait :
      (rs : List ℕ)
      → All (λ t. is_recent w now t ≡ true) rs
      → retry_after w now rs ≡ some r
      → length rs ≤ most
      → length (keep (is_recent w (now + r)) rs) < most
  unfolding is_recent
  after_wait [] a e h = cc e
  after_wait (t ∷ ts) a e h =
      ground (arith, a.0, some-injective _ _ e, length-keep-le (λ u. ltb (now + r - u) w) ts)

abbrev retry_of : Answer → Option ℕ
retry_of admitted = none
retry_of (limited o) = o

module _ (l : Limit) (key : Text) (now r : ℕ) (store : Attempts) where
  verdict :
      (rs : List ℕ)
      → (answer_recent l key now store rs).0
        ≡ (if leb l.most (length rs) then limited (retry_after l.window now rs) else admitted)
  verdict rs = ground (arith)

  split_limited :
      (rs : List ℕ) (b : Bool)
      → leb l.most (length rs) ≡ b
      → (if b then limited (retry_after l.window now rs) else admitted) ≡ limited (some r)
      → (retry_after l.window now rs ≡ some r) × (leb l.most (length rs) ≡ true)
  split_limited rs true e h = (ap retry_of h, e)
  split_limited rs false e h = cc h

  limited-retry :
      (rs : List ℕ)
      → (answer_recent l key now store rs).0 ≡ limited (some r)
      → (retry_after l.window now rs ≡ some r) × (leb l.most (length rs) ≡ true)
  limited-retry rs h = split_limited rs _ refl (sym (verdict rs) ∙ h)

-- A request of another key, or a sweep.
abbrev pub Elsewhere : Text → Event → Type 0
Elsewhere key (requests j now) = same_text j key ≡ false
Elsewhere key (sweeps now) = Unit

room_admits :
    (l : Limit) (key : Text) (later : ℕ) (store : Attempts)
    → length (keep (is_recent l.window later) (attempts_of key store)) < l.most
    → (check_rate_limit_with_config l key later store).0 ≡ admitted
unfolding check_rate_limit_with_config
room_admits l key later store room = ground (arith, room)

module _ (limits : Text → Limit) (interval : ℕ) (key : Text) where
  unlogged :
      (es : List Event) (store : Attempts) (past : List ℕ)
      → All (Elsewhere key) es
      → admissions limits interval key es store past ≡ past
  unfolding admissions logged
  unlogged [] store past a = refl
  unlogged (requests j now ∷ es) store past a = rw (a.0) (unlogged es _ past a.1)
  unlogged (sweeps now ∷ es) store past a = unlogged es _ past a.1

  refused-logged :
      (now r : ℕ) (store : Attempts) (past : List ℕ)
      → (check_rate_limit_with_config (limits key) key now store).0 ≡ limited (some r)
      → logged limits interval key (requests key now) store past ≡ past
  unfolding logged
  refused-logged now r store past e = rw (same_text_refl key, e) refl

-- After every history in order of time, a key that is limited with a time to wait is let through once
-- that time has passed, if it makes no request in between, whatever other keys and sweeps do.
pub admitted_after_wait :
    (limits : Text → Limit) (interval : ℕ)
    → ((key : Text) → (limits key).window ≤ interval)
    → (key : Text) (es : List Event) (now r : ℕ) → InOrder 0 es
    → clock_after 0 es ≤ now
    → (check_rate_limit_with_config (limits key) key now (replay limits interval es [])).0
      ≡ limited (some r)
    → (more : List Event) (later : ℕ) → InOrder now more
    → All (Elsewhere key) more
    → clock_after now more ≤ later
    → now + r ≤ later
    → (check_rate_limit_with_config (limits key) key later (
        replay limits interval more
          (check_rate_limit_with_config (limits key) key now (replay limits interval es [])).1)).0
      ≡ admitted
unfolding check_rate_limit_with_config serve
admitted_after_wait limits interval wide key es now r o h e more later o' away h' waited =
    room_admits l key later (replay limits interval more refused_store) (
      rw
        (
          last_book.agree later h',
          unlogged limits interval key more refused_store _ away,
          refused-logged limits interval key now r store past e,
        )
        (omega (arith, after_wait l.window now l.most r recents all_recent told.0 few, sooner)))
  where
    l : Limit
    l = limits key

    store : Attempts
    store = replay limits interval es []

    past : List ℕ
    past = admissions limits interval key es [] []

    first : Kept limits interval key (clock_after 0 es) store past
    first = replay-Kept limits interval wide key es 0 [] [] o (empty-Kept limits interval wide key)

    refused_store : Attempts
    refused_store = (check_rate_limit_with_config l key now store).1

    last_book :
        Book l
          (clock_after now more)
          (attempts_of key (replay limits interval more refused_store))
          (admissions limits interval key more refused_store
            (logged limits interval key (requests key now) store past))
    last_book =
        (replay-Kept limits interval wide key more now refused_store _ o' (
          requests-Kept limits interval wide key (clock_after 0 es) now store past key h
            first)).book

    recents : List ℕ
    recents = keep (is_recent l.window now) (attempts_of key store)

    all_recent : All (λ t. is_recent l.window now t ≡ true) recents
    all_recent = keep-All (is_recent l.window now) (attempts_of key store)

    told : (retry_after l.window now recents ≡ some r) × (leb l.most (length recents) ≡ true)
    told = limited-retry l key now r store recents e

    few : length recents ≤ l.most
    few =
        omega (
          arith,
          length-keep-le (is_recent l.window now) (attempts_of key store),
          first.book.stored,
        )

    -- What counts later counts when the wait is over, among what counted at the refusal.
    sooner :
        length (keep (is_recent l.window later) past)
        ≤ length (keep (is_recent l.window (now + r)) recents)
    sooner =
        subst (λ n. length (keep (is_recent l.window later) past) ≤ length n)
          (sym (
            ap (keep (is_recent l.window (now + r))) (first.book.agree now h)
            ∙ keep-keep (is_recent l.window now) (is_recent l.window (now + r))
                (λ t. recent-earlier l.window now (now + r) t (omega arith)) past))
          (length-keep_mono (is_recent l.window (now + r)) (is_recent l.window later)
            (λ t. recent-earlier l.window (now + r) later t waited) past)
