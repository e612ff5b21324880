-- ===== src/Idempotency/Interceptor.antt =====
-- idempotency/idempotency.interceptor.ts: one request through the interceptor. `handle` is the rest of
-- the request's handling: it changes the world, and answers with a body or throws. The cache is
-- written without waiting for it (`void this.store.complete(...)`): the interceptor gives the write
-- back as a value, which lands at a later time, on the entries of that time, or never.
use ratel_financial_platform.Prelude.{
  ℕ, String, Bool, true, false, ◌||◌, Option, none, some, List, [], ◌∷◌, str_eq, ltb, if◌then◌else◌,
}
use ratel_financial_platform.Prelude.Texts.{concat, is_empty_text}
use ratel_financial_platform.Errors.{Failure, invalid_idempotency_key, idempotency_key_in_progress}
use ratel_financial_platform.Serialization.Json.{JsonValue}
use ratel_financial_platform.Serialization.Parse.{size}
use ratel_financial_platform.Idempotency.Store.{
  RedisEntry, CachedResponse, Stored, absent, in_progress, cached, unreadable, claim, read,
  complete, release,
}

abbrev pub max_key_length : ℕ
max_key_length = 255

-- A header with one value, or with several, of which the first is the key.
pub data Header : Type 0 where
  one : String → Header
  several : String → List String → Header

pub record Request : Type 0 where
  pub method : String
  pub idempotency_key : Option Header
  pub user_id : Option String
  pub ip : String
  pub class_name : String
  pub handler_name : String
  pub http_code : Option ℕ

pub record Ttls : Type 0 where
  pub lock : ℕ
  pub response : ℕ

-- What a request gets: an answer of the handler, a replayed one, or an error.
pub data Outcome : Type 0 where
  answered : ℕ → Option JsonValue → Outcome
  replayed : CachedResponse → Outcome
  refused : Failure → Outcome
  failed : String → Outcome

-- What the handler does: a body, which is nothing for `undefined`, or the error that it throws.
pub data Handled : Type 0 where
  body : Option JsonValue → Handled
  thrown : String → Handled

-- What the store is told without waiting: to keep a response under a key, or to free the key.
pub data CacheWrite : Type 0 where
  keep_response : String → CachedResponse → ℕ → CacheWrite
  free_key : String → CacheWrite

-- The entries when the write lands, at a time.
unfoldable pub land : CacheWrite → ℕ → List RedisEntry → List RedisEntry
land (keep_response key response ttl) time entries = complete key response ttl time entries
land (free_key key) time entries = release key entries

-- The world, the entries, what the request gets, and the write that is on its way.
abbrev pub Reply : Type 0 → Type 0
Reply W = ((W × List RedisEntry) × Outcome) × Option CacheWrite

abbrev pub scope_of : Request → String
scope_of request = elim request.user_id [ none ↦ concat ("ip:" ∷ request.ip ∷ []) | some id ↦ id ]

unfoldable pub build_redis_key : Request → String → String
build_redis_key request raw_key = concat (
    "idempotency:"
    ∷ request.class_name
    ∷ "."
    ∷ request.handler_name
    ∷ ":"
    ∷ scope_of request
    ∷ ":"
    ∷ raw_key
    ∷ [])

unfoldable pub resolve_status_code : Request → ℕ
resolve_status_code request = elim request.http_code [
  | some code ↦ code
  | none ↦ if str_eq request.method "POST" then 201 else 200
]

abbrev pub is_mutating : Request → Bool
is_mutating request = str_eq request.method "POST" || str_eq request.method "PATCH"

module _ {W : Type 0} (handle : Request → W → W × Handled) where
  abbrev pub answer : Request → W × Handled → W × Outcome
  answer request (world, body b) = (world, answered (resolve_status_code request) b)
  answer request (world, thrown e) = (world, failed e)

  -- `executeAndCache`: the answer, and the write or the release that is not waited for.
  abbrev pub cache_outcome : Request → String → ℕ → List RedisEntry → W × Handled → Reply W
  cache_outcome request key ttl entries (world, body b) = (
    ((world, entries), answered (resolve_status_code request) b),
    some (keep_response key (record { status = resolve_status_code request; body = b }) ttl),
  )
  cache_outcome request key ttl entries (world, thrown e) =
      (((world, entries), failed e), some (free_key key))

  abbrev pub replay_or_conflict : Stored → Outcome
  replay_or_conflict (cached response) = replayed response
  replay_or_conflict absent = refused idempotency_key_in_progress
  replay_or_conflict in_progress = refused idempotency_key_in_progress
  replay_or_conflict unreadable = failed "SyntaxError"

  abbrev pub claimed_or_not : Request → String → Ttls → ℕ → W → List RedisEntry × Bool → Reply W
  claimed_or_not request key ttls now world (entries, true) =
      cache_outcome request key ttls.response entries (handle request world)
  claimed_or_not request key ttls now world (entries, false) =
      (((world, entries), replay_or_conflict (read key now entries)), none)

  unfoldable pub with_key : Request → String → Ttls → ℕ → W → List RedisEntry → Reply W
  with_key request raw_key ttls now world entries =
      let key = build_redis_key request raw_key in
      if is_empty_text raw_key
      then (((world, entries), refused (invalid_idempotency_key "must not be empty")), none)
      else if ltb max_key_length (size raw_key)
      then (
        ((world, entries), refused (invalid_idempotency_key "must be at most 255 characters")),
        none,
      )
      else claimed_or_not request key ttls now world (claim key ttls.lock now entries)

  abbrev pub passed : List RedisEntry → W × Outcome → Reply W
  passed entries (world, outcome) = (((world, entries), outcome), none)

  -- `if (!header)`: an empty header is as good as none, while the first of several may be empty.
  abbrev pub with_header : Request → Option Header → Ttls → ℕ → W → List RedisEntry → Reply W
  with_header request none ttls now world entries =
      passed entries (answer request (handle request world))
  with_header request (some (one raw_key)) ttls now world entries =
      if is_empty_text raw_key
      then passed entries (answer request (handle request world))
      else with_key request raw_key ttls now world entries
  with_header request (some (several raw_key more)) ttls now world entries =
      with_key request raw_key ttls now world entries

  unfoldable pub intercept : Request → Ttls → ℕ → W → List RedisEntry → Reply W
  intercept request ttls now world entries =
      if is_mutating request
      then with_header request request.idempotency_key ttls now world entries
      else passed entries (answer request (handle request world))
