-- ===== src/Cache/Redis.antt =====
-- The cache in a Redis server and its circuit breaker (`RedisBackend` of src/cache/backends.ts). What the
-- server answers to a command is an argument; an error and a time-out are both `failed`.
pub mod Breaking
pub mod Cleared
use xcoder.Prelude.{
  ℕ, suc, ◌+◌, Bool, true, false, Option, none, some, List, [], ◌∷◌, ◌++◌, length, ltb, leb, ◌&&◌,
  if◌then◌else◌,
}
use xcoder.Prelude.Text.{Text}

pub record RedisOptions : Type 0 where
  pub breaker_threshold : ℕ
  pub breaker_ms : ℕ

abbrev pub default_options : RedisOptions
default_options = record { breaker_threshold = 3; breaker_ms = 30_000 }

pub record Breaker : Type 0 where
  pub fails : ℕ
  pub open_until : ℕ

pub data Answer {ℓ} (A : Type ℓ) : Type ℓ where
  replied : A → Answer A
  failed : Answer A

-- One command to the server: when it began and when it settled, and what the server said, which counts
-- only if the command is sent.
pub record Command {ℓ} (A : Type ℓ) : Type ℓ where
  pub began : ℕ
  pub settled : ℕ
  pub is_ready : Bool
  pub answer : Answer A

unfoldable pub usable : Bool → ℕ → Breaker → Bool
usable ready now b = ready && leb b.open_until now

unfoldable pub good : Breaker → Breaker
good b = record b { fails = 0 }

unfoldable pub bad : RedisOptions → ℕ → Breaker → Breaker
bad o now b =
    if leb o.breaker_threshold (suc b.fails)
    then record { fails = 0; open_until = now + o.breaker_ms }
    else record b { fails = suc b.fails }

unfoldable pub settle {ℓ} : {A : Type ℓ} → RedisOptions → ℕ → Answer A → Breaker → Breaker
settle o now (replied a) b = good b
settle o now failed b = bad o now b

abbrev answer_of {ℓ} : {A : Type ℓ} → Answer A → Option A
answer_of (replied a) = some a
answer_of failed = none

-- A command behind the breaker: its answer, if it is sent and does not fail.
unfoldable pub guarded {ℓ} : {A : Type ℓ} → RedisOptions → Command A → Breaker → Option A × Breaker
guarded o c b =
    if usable c.is_ready c.began b
    then (answer_of c.answer, settle o c.settled c.answer b)
    else (none, b)

abbrev value_or_none : Option (Option Text) → Option Text
value_or_none (some v) = v
value_or_none none = none

unfoldable pub get : RedisOptions → Command (Option Text) → Breaker → Option Text × Breaker
get o c b = let r = guarded o c b in (value_or_none r.0, r.1)

abbrev is_answered {ℓ} : {A : Type ℓ} → Option A → Bool
is_answered (some a) = true
is_answered none = false

-- any reply to SET will do
unfoldable pub set {ℓ} : {A : Type ℓ} → RedisOptions → Command A → Breaker → Bool × Breaker
set o c b = let r = guarded o c b in (is_answered r.0, r.1)

-- `size` asks the breaker and does not tell it.
unfoldable pub size : Command ℕ → Breaker → Option ℕ
size c b = if usable c.is_ready c.began b then answer_of c.answer else none

-- `flush`: what UNLINK removed, or nothing if it failed; an empty batch is not sent
unfoldable pub flush : (List Text → Option ℕ) → List Text → Option ℕ
flush unlink [] = some 0
flush unlink (k ∷ ks) = unlink (k ∷ ks)

abbrev flushed : Option ℕ → ℕ → (ℕ → ℕ) → ℕ
flushed none removed next = removed
flushed (some n) removed next = next (removed + n)

-- The scanned keys, deleted in batches of 200; `whole` says that the scan did not fail after them.
unfoldable pub clear_keys : (List Text → Option ℕ) → Bool → List Text → List Text → ℕ → ℕ
clear_keys unlink false batch [] removed = removed
clear_keys unlink true batch [] removed = flushed (flush unlink batch) removed (λ r. r)
clear_keys unlink whole batch (k ∷ ks) removed =
    let after = batch ++ k ∷ [] in
    if leb 200 (length after)
    then flushed (flush unlink after) removed (clear_keys unlink whole [] ks)
    else clear_keys unlink whole after ks removed

unfoldable pub clear : Bool → (List Text → Option ℕ) → Bool → List Text → ℕ
clear ready unlink whole keys = if ready then clear_keys unlink whole [] keys 0 else 0
