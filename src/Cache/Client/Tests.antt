-- ===== src/Cache/Client/Tests.antt =====
-- A run of the caching client over the store in the process (src/cache/llmCache.ts).
use xcoder.Prelude.{ℕ, Bool, true, false, Option, none, some, List, [], ◌∷◌}
use xcoder.Prelude.Text.{Text, codes}
use xcoder.Cache.Client.{
  Response, Tokens, FinishReason, CacheOptions, new_counters, entry, Codec, Call, Client,
}
use xcoder.Cache.Memory.{Store}

abbrev plain : Text → Response
plain s = record {
  content = s;
  tool_calls = [];
  usage = none;
  finish_reason = none;
  cache_hit = false;
}

-- encodes plain texts only
abbrev encode_parts : Text → List Text → Option Tokens → Option FinishReason → Bool → Option Text
encode_parts s [] none none false = some s
encode_parts s [] none none true = none
encode_parts s [] none (some f) h = none
encode_parts s [] (some u) f h = none
encode_parts s (t ∷ ts) u f h = none

abbrev encode_plain : Response → Option Text
encode_plain r = encode_parts r.content r.tool_calls r.usage r.finish_reason r.cache_hit

abbrev first_message : List Text → Text
first_message [] = []
first_message (s ∷ ss) = s

abbrev plain_codec : Codec
plain_codec = record {
  key = λ q. some (first_message q.messages);
  encode = encode_plain;
  decode = λ s. entry (plain s);
}

abbrev options : CacheOptions
options = record {
  thinking = false;
  saas_mode = false;
  default_temperature = 0;
  max_temperature = none;
  max_entry_bytes = none;
  ttl_seconds = 60;
}

abbrev asking : Text → ℕ → Option Response → Call
asking s now answer = record {
  request = record { messages = s ∷ []; temperature = none; has_tenant = false };
  reads_at = now;
  writes_at = now;
  model = answer;
}

abbrev calls : List Call
calls =
    asking (codes "hi") 0 (some (plain (codes "hello")))
    ∷ asking (codes "hi") 10 none
    ∷ asking (codes "bye") 20 (some (plain (codes "later")))
    ∷ []

abbrev cold : Client Store
cold = record { counters = new_counters; backend = [] }
