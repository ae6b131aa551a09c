-- ===== src/Cache/Tests.antt =====
-- Runs of the cache models (src/cache/backends.ts).
use xcoder.Prelude.{◌<◌, ◌≡◌, refl, [], ◌∷◌, arith, List, none, some, leb, if◌then◌else◌, ◌↔◌}
use xcoder.Prelude.Text.{Text, codes}
use xcoder.Cache.Memory.{Store, get, set}
use xcoder.Cache.Memory.Held.{get-perform_all}
use xcoder.Cache.Memory.Evicted.{
  Operation, got, put, cleared, perform_all, Bounded, perform_all-Bounded,
}
use xcoder.Cache.Redis.{default_options, replied, failed}
use xcoder.Cache.Redis.Breaking.{Settlement, settle_all, closed, FailuresWithin, settle_all-opens}

abbrev two_entries : Store
two_entries =
    record { key = codes "a"; value = codes "x"; expires = 5_000 }
    ∷ record { key = codes "b"; value = codes "y"; expires = 9_000 }
    ∷ []

abbrev busy : List Operation
busy =
    put 0 (codes "a") (codes "x") 5
    ∷ put 10 (codes "b") (codes "y") 5
    ∷ got 20 (codes "a")
    ∷ put 30 (codes "c") (codes "z") 5
    ∷ cleared (codes "c")
    ∷ []

perform_all-Bounded_example : Bounded 2 (perform_all 2 busy [])
perform_all-Bounded_example = perform_all-Bounded 2 busy

abbrev meanwhile : List Operation
meanwhile = got 1_200 (codes "a") ∷ put 1_300 (codes "d") (codes "w") 5 ∷ got 1_400 (codes "c") ∷ []

get-perform_all_example :
    (get 1_500
      (codes "c")
      (perform_all 4 meanwhile (set 4 1_000 (codes "c") (codes "z") 5 two_entries))).0
    ≡ (if leb 6_000 1_500 then none else some (codes "z"))
get-perform_all_example =
    get-perform_all 4 1_000 1_500 (codes "c") (codes "z") 5 two_entries meanwhile
      (omega arith, (refl, (omega arith, tt))) (omega arith)

abbrev outage : List (Settlement Text)
outage =
    record { at = 1; answer = failed }
    ∷ record { at = 2; answer = replied (codes "v") }
    ∷ record { at = 3; answer = failed }
    ∷ record { at = 4; answer = failed }
    ∷ record { at = 5; answer = failed }
    ∷ []

settle_all-opens_example :
    (0 < (settle_all default_options outage closed).open_until)
    ↔ FailuresWithin default_options 3 outage
settle_all-opens_example = settle_all-opens default_options outage (omega arith) (omega arith)

abbrev some_keys : List Text
some_keys = codes "a" ∷ codes "b" ∷ []
