-- ===== src/Cache/Redis/Cleared.antt =====
-- What a clearing of the Redis cache removes (src/cache/backends.ts).
use xcoder.Prelude.{
  ℕ, suc, ◌+◌, ◌≡◌, refl, ◌∙◌, true, Option, some, List, [], ◌∷◌, ◌++◌, length, length-append, leb,
  if-both, arith,
}
use xcoder.Prelude.Text.{Text}
use xcoder.Cache.Redis.{flush, clear_keys, clear}

module _ (unlink : List Text → Option ℕ)
    (unlinks_all : (ks : List Text) → unlink ks ≡ some (length ks)) where
  flush-all : (ks : List Text) → flush unlink ks ≡ some (length ks)
  unfolding flush
  flush-all [] = refl
  flush-all (k ∷ ks) = unlinks_all (k ∷ ks)

  clear_keys-all :
      (keys batch : List Text) (removed : ℕ)
      → clear_keys unlink true batch keys removed ≡ removed + (length batch + length keys)
  unfolding clear_keys
  clear_keys-all [] batch removed = rw (flush-all batch) (omega arith)
  clear_keys-all (k ∷ ks) batch removed =
      if-both (λ n. n ≡ removed + (length batch + suc (length ks)))
        (leb 200 (length (batch ++ k ∷ [])))
        (λ _. rw (flush-all (batch ++ k ∷ [])) (
          clear_keys-all ks [] (removed + length (batch ++ k ∷ []))
          ∙ omega (arith, length-append batch (k ∷ []))))
        (λ _.
          clear_keys-all ks (batch ++ k ∷ []) removed ∙ omega (arith, length-append batch (k ∷ [])))

  -- On a server that is ready, and removes every key of each batch, a clearing whose scan comes to its
  -- end removes every key that was scanned: no batch is lost, the last one included.
  pub clear-all : (keys : List Text) → clear true unlink true keys ≡ length keys
  unfolding clear
  clear-all keys = clear_keys-all keys [] 0 ∙ omega arith
