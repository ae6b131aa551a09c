-- ===== src/Cache/Client/Faithful.antt =====
-- Where the answers of the caching client come from (src/cache/llmCache.ts).
use xcoder.Prelude.{true, ◌≡◌, Option, none, some, List, [], ◌∷◌}
use xcoder.Prelude.Text.{Text}
use xcoder.Cache.Backend.{Backend}
use xcoder.Cache.Client.{
  Response, Tokens, CacheOptions, Codec, entry, Call, Reply, from_cache, from_model, threw, Client,
  Found, found, nothing, broken,
}

abbrev Log : Type 0
Log = List (Call × Reply)

-- Among these calls, one with this key that the model answered so.
pub data Said (codec : Codec) (k : Text) (r : Response) : List (Call × Reply) → Type 0 where
  just_now :
      {c : Call} {log : List (Call × Reply)}
      → codec.key c.request ≡ some k
      → Said codec k r ((c, from_model r) ∷ log)
  before :
      {e : Call × Reply} {log : List (Call × Reply)} → Said codec k r log → Said codec k r (e ∷ log)

-- The usage of a hit: no tokens are spent.
abbrev pub SpendsNothing : Option Tokens → Type 0
SpendsNothing none = Unit
SpendsNothing (some u) = (u.prompt_tokens ≡ 0) × (u.completion_tokens ≡ 0) × (u.total_tokens ≡ 0)

-- The same answer, told again.
pub record Repeats (r h : Response) : Type 0 where
  pub content : h.content ≡ r.content
  pub calls : h.tool_calls ≡ r.tool_calls
  pub reason : h.finish_reason ≡ r.finish_reason
  pub marked : h.cache_hit ≡ true
  pub free : SpendsNothing h.usage

-- A hit is what the model said to an earlier call of the same key; `log` is the earlier calls.
pub data Backed (codec : Codec) (log : List (Call × Reply)) : Call × Reply → Type 0 where
  asked : {c : Call} {r : Response} → c.model ≡ some r → Backed codec log (c, from_model r)
  failing : {c : Call} → c.model ≡ none → Backed codec log (c, threw)
  repeated :
      {c : Call} {k : Text} {r : Response}
      → codec.key c.request ≡ some k
      → Said codec k r log
      → (h : Response) → Repeats r h
      → Backed codec log (c, from_cache h)

pub data AllBacked (codec : Codec) : (log calls : List (Call × Reply)) → Type 0 where
  no_more : {log : List (Call × Reply)} → AllBacked codec log []
  and_then :
      {log : List (Call × Reply)} {e : Call × Reply} {es : List (Call × Reply)}
      → Backed codec log e
      → AllBacked codec (e ∷ log) es
      → AllBacked codec log (e ∷ es)

-- What was encoded is read back.
abbrev pub RoundTrips : Codec → Type 0
RoundTrips codec = (r : Response) (v : Text) → codec.encode r ≡ some v → codec.decode v ≡ entry r

module _ {S : Type 0} (b : Backend S) (codec : Codec) (o : CacheOptions)
    (trips : RoundTrips codec) where
  -- A text in the store stands for what the model said.
  record Stands (log : Log) (k v : Text) : Type 0 where
    response : Response
    encoded : codec.encode response ≡ some v
    said : Said codec k response log

  record Sound (log : Log) (s : S) : Type 0 where
    stands : (k v : Text) → b.Holds s k v → Stands log k v

  -- what one call needs
  abbrev Step : Log → Call → Reply × Client S → Type 0
  Step log c r = Backed codec log (c, r.0) × Sound ((c, r.0) ∷ log) r.1.backend

  -- What a read may find: a response only if it stands in the log.
  data FoundIn (log : Log) (k : Text) : Found → Type 0 where
    found_said : {r : Response} → Said codec k r log → FoundIn log k (found r)
    found_nothing : FoundIn log k nothing
    found_broken : FoundIn log k broken
