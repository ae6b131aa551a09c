-- ===== src/Cache/Client.antt =====
-- The caching client in front of a language model (`CachingLlmClient` of src/cache/llmCache.ts). Hashing,
-- JSON and the model are arguments. Temperatures are in thousandths; tool calls are their JSON texts.
pub mod Faithful
mod Tests
use xcoder.Prelude.{
  ℕ, ◌+◌, ◌==◌, Bool, true, false, not, ◌&&◌, ◌||◌, Option, none, some, List, [], ◌∷◌, length, leb,
  if◌then◌else◌, or_default,
}
use xcoder.Prelude.Text.{Text, trim, non_empty}
use xcoder.Cache.Backend.{Backend}

pub data FinishReason : Type 0 where
  length_limit content_filter : FinishReason
  other_reason : Text → FinishReason

pub record Tokens : Type 0 where
  pub prompt_tokens : ℕ
  pub completion_tokens : ℕ
  pub total_tokens : ℕ
  pub cached_tokens : Option ℕ

pub record Response : Type 0 where
  pub content : Text
  pub tool_calls : List Text
  pub usage : Option Tokens
  pub finish_reason : Option FinishReason
  pub cache_hit : Bool

pub record Request : Type 0 where
  pub messages : List Text
  pub temperature : Option ℕ
  pub has_tenant : Bool

pub record CacheOptions : Type 0 where
  pub thinking : Bool
  pub saas_mode : Bool
  pub default_temperature : ℕ
  pub max_temperature : Option ℕ
  pub max_entry_bytes : Option ℕ
  pub ttl_seconds : ℕ

pub record Counters : Type 0 where
  pub hits : ℕ
  pub misses : ℕ
  pub bypassed : ℕ
  pub stored : ℕ
  pub errors : ℕ
  pub tokens_saved : ℕ

abbrev pub new_counters : Counters
new_counters = record {
  hits = 0;
  misses = 0;
  bypassed = 0;
  stored = 0;
  errors = 0;
  tokens_saved = 0;
}

-- A parsed entry: a response, another shape, or no JSON.
pub data Decoded : Type 0 where
  entry : Response → Decoded
  other_shape unreadable : Decoded

-- `none` is an exception.
pub record Codec : Type 0 where
  pub key : Request → Option Text
  pub encode : Response → Option Text
  pub decode : Text → Decoded

-- One call of `complete`: when it reads and when it writes the store, and what the model says if it is
-- asked; `none` is an exception.
pub record Call : Type 0 where
  pub request : Request
  pub reads_at : ℕ
  pub writes_at : ℕ
  pub model : Option Response

pub data Reply : Type 0 where
  from_cache from_model : Response → Reply
  threw : Reply

pub record Client (S : Type 0) : Type 0 where
  pub counters : Counters
  pub backend : S

unfoldable pub cacheable : CacheOptions → Request → Bool
cacheable o q =
    not (o.thinking || length q.messages == 0)
    && not (o.saas_mode && not q.has_tenant)
    && leb (or_default q.temperature o.default_temperature) (or_default o.max_temperature 0)

unfoldable pub cut_off : Option FinishReason → Bool
cut_off (some length_limit) = true
cut_off (some content_filter) = true
cut_off _ = false

unfoldable pub storable : Response → Bool
storable r =
    not (cut_off r.finish_reason) && (non_empty (trim r.content) || not (length r.tool_calls == 0))

abbrev hit_usage : Option Tokens → Tokens
hit_usage u = record {
  prompt_tokens = 0;
  completion_tokens = 0;
  total_tokens = 0;
  cached_tokens = elim u [ some t ↦ some t.prompt_tokens | none ↦ none ];
}

-- A hit reports no spent tokens.
unfoldable pub as_hit : Response → Response
as_hit r = record r { usage = some (hit_usage r.usage); cache_hit = true }

pub data Found : Type 0 where
  found : Response → Found
  nothing broken : Found

unfoldable pub decoded : Decoded → Found
decoded (entry r) = found r
decoded other_shape = nothing
decoded unreadable = broken

-- `if (raw)`: an empty text counts as nothing
unfoldable pub read : Codec → Option Text → Found
read codec none = nothing
read codec (some []) = nothing
read codec (some (c ∷ s)) = decoded (codec.decode (c ∷ s))

abbrev saved : Option Tokens → ℕ
saved none = 0
saved (some t) = t.total_tokens

module _ {S : Type 0} (b : Backend S) (codec : Codec) (o : CacheOptions) where
  unfoldable pub write : ℕ → Text → Option Text → Client S → Client S
  write now k none st = record st {
    counters = record st.counters { errors = st.counters.errors + 1 };
  }
  write now k (some v) st =
      let w = b.set now k v o.ttl_seconds st.backend in
      if leb (length v) (or_default o.max_entry_bytes 524_288)
      then record {
        counters =
            if w.0 then record st.counters { stored = st.counters.stored + 1 } else st.counters;
        backend = w.1;
      }
      else st

  unfoldable pub ask : ℕ → Text → Option Response → Client S → Reply × Client S
  ask now k none st = (threw, st)
  ask now k (some r) st = (from_model r, if storable r then write now k (codec.encode r) st else st)

  abbrev missed : Client S → Client S
  missed st = record st { counters = record st.counters { misses = st.counters.misses + 1 } }

  unfoldable pub after_get : Call → Text → Found → Client S → Reply × Client S
  after_get c k (found r) st = (
    from_cache (as_hit r),
    record st {
      counters = record st.counters {
        hits = st.counters.hits + 1;
        tokens_saved = st.counters.tokens_saved + saved r.usage;
      };
    },
  )
  after_get c k nothing st = ask c.writes_at k c.model (missed st)
  after_get c k broken st =
      ask c.writes_at k c.model
        (missed (record st { counters = record st.counters { errors = st.counters.errors + 1 } }))

  abbrev direct : Option Response → Reply
  direct none = threw
  direct (some r) = from_model r

  unfoldable pub keyed : Call → Option Text → Client S → Reply × Client S
  keyed c none st = (
    direct c.model,
    record st { counters = record st.counters { errors = st.counters.errors + 1 } },
  )
  keyed c (some k) st =
      let g = b.get c.reads_at k st.backend in
      after_get c k (read codec g.0) (record st { backend = g.1 })

  unfoldable pub complete : Call → Client S → Reply × Client S
  complete c st = if cacheable o c.request then keyed c (codec.key c.request) st else (
    direct c.model,
    record st { counters = record st.counters { bypassed = st.counters.bypassed + 1 } },
  )

  unfoldable pub complete_all : List Call → Client S → List (Call × Reply)
  complete_all [] st = []
  complete_all (c ∷ cs) st = let r = complete c st in (c, r.0) ∷ complete_all cs r.1
