-- ===== src/Idempotency/Store.antt =====
-- idempotency/idempotency-store.service.ts over the entries of Redis.
use ratel_financial_platform.Prelude.{
  ℕ, ◌+◌, String, Bool, true, false, not, ◌&&◌, Option, none, some, List, ◌∷◌, str_eq, ltb, find,
  keep, if◌then◌else◌,
}
use ratel_financial_platform.Serialization.Json.{
  JsonValue, JsonFields, number, object, no_fields, field,
}
use ratel_financial_platform.Prelude.Int.{pos}
use ratel_financial_platform.Serialization.Canonical.{stringify}
use ratel_financial_platform.Serialization.Parse.{parse}

abbrev pub in_progress_text : String
in_progress_text = "IN_PROGRESS"

-- `body: unknown`; nothing stands for `undefined`.
pub record CachedResponse : Type 0 where
  pub status : ℕ
  pub body : Option JsonValue

pub record RedisEntry : Type 0 where
  pub key : String
  pub value : String
  pub expires_at : ℕ

abbrev pub is_live : ℕ → String → RedisEntry → Bool
is_live now key entry = str_eq entry.key key && ltb now entry.expires_at

-- `GET`: an entry whose time is over is not there.
unfoldable pub get : String → ℕ → List RedisEntry → Option RedisEntry
get key now entries = find (is_live now key) entries

unfoldable pub del : String → List RedisEntry → List RedisEntry
del key entries = keep (λ (e : RedisEntry). not (str_eq e.key key)) entries

-- `SET key value PX ttl`
unfoldable pub set : String → String → ℕ → ℕ → List RedisEntry → List RedisEntry
set key value ttl now entries =
    record { key = key; value = value; expires_at = now + ttl } ∷ del key entries

-- `SET key IN_PROGRESS PX ttl NX`, and whether the call won the key.
abbrev pub claim_if : Option RedisEntry → String → ℕ → ℕ → List RedisEntry → List RedisEntry × Bool
claim_if none key ttl now entries = (set key in_progress_text ttl now entries, true)
claim_if (some entry) key ttl now entries = (entries, false)

unfoldable pub claim : String → ℕ → ℕ → List RedisEntry → List RedisEntry × Bool
claim key lock_ttl now entries = claim_if (get key now entries) key lock_ttl now entries

pub data Stored : Type 0 where
  absent in_progress : Stored
  cached : CachedResponse → Stored
  -- `JSON.parse` throws
  unreadable : Stored

-- `JSON.stringify` leaves out a field that is `undefined`.
abbrev pub body_field : Option JsonValue → JsonFields
body_field none = no_fields
body_field (some body) = field "body" body no_fields

abbrev pub response_json : CachedResponse → JsonValue
response_json response =
    object (field "status" (number (pos response.status)) (body_field response.body))

abbrev pub as_response : Option JsonValue → Stored
as_response (some (object (field key (number (pos status)) (field key' body no_fields)))) =
    cached (record { status = status; body = some body })
as_response (some (object (field key (number (pos status)) no_fields))) =
    cached (record { status = status; body = none })
as_response _ = unreadable

abbrev pub read_value_of : Option RedisEntry → Stored
read_value_of none = absent
read_value_of (some entry) =
    if str_eq entry.value in_progress_text then in_progress else as_response (parse entry.value)

unfoldable pub read : String → ℕ → List RedisEntry → Stored
read key now entries = read_value_of (get key now entries)

unfoldable pub complete : String → CachedResponse → ℕ → ℕ → List RedisEntry → List RedisEntry
complete key response response_ttl now entries =
    set key (stringify (response_json response)) response_ttl now entries

unfoldable pub release : String → List RedisEntry → List RedisEntry
release key entries = del key entries
