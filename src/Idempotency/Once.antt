-- ===== src/Idempotency/Once.antt =====
-- Requests with one key, one after another, while the write of the answer is on its way and after it.
use Prim.Native.Char.{code}
use ratel_financial_platform.Prelude.{
  Option, ℕ, ◌+◌, ◌<◌, ◌≤◌, String, Bool, true, false, ◌&&◌, none, some, List, [], ◌∷◌, ◌≡◌, refl,
  ap, ◌∙◌, arith, Bool-cases, inl, inr, str_eq, eq_iff, eq_refl, ltb, find,
}
use ratel_financial_platform.Prelude.Texts.{is_empty_text}
use ratel_financial_platform.Errors.{idempotency_key_in_progress}
use ratel_financial_platform.Serialization.Json.{JsonValue}
use ratel_financial_platform.Serialization.Canonical.{stringify, put}
use ratel_financial_platform.Serialization.Parse.{size}
use ratel_financial_platform.Serialization.Faithful.{parse-stringify}
use ratel_financial_platform.Idempotency.Store.{
  RedisEntry, CachedResponse, cached, in_progress, as_response, in_progress_text, get, del, set,
  claim_if, claim, response_json, read_value_of, read, complete, release, is_live,
}
use ratel_financial_platform.Idempotency.Interceptor.{
  Request, one, Ttls, CacheWrite, keep_response, free_key, land, answered, replayed, refused,
  failed, Handled, body, thrown, is_mutating, build_redis_key, resolve_status_code, claimed_or_not,
  cache_outcome, replay_or_conflict, with_key, intercept,
}

-- A mutating request with one key that is neither empty nor too long.
abbrev pub HasKey : Request → String → Type 0
HasKey request key =
    (is_mutating request ≡ true)
    × (request.idempotency_key ≡ some (one key))
    × (is_empty_text key ≡ false)
    × (size key ≤ 255)

module _ {W : Type 0} (handle : Request → W → W × Handled) where
  keyed :
      (request : Request) (key : String) (ttls : Ttls) (now : ℕ) (world : W)
      (entries : List RedisEntry)
      → HasKey request key
      → intercept handle request ttls now world entries
        ≡ claimed_or_not handle request
            (build_redis_key request key)
            ttls
            now
            world
            (claim (build_redis_key request key) ttls.lock now entries)
  unfolding intercept with_key
  keyed request key ttls now world entries (mutating, header, full, short) =
      let fits : ltb 255 (size key) ≡ false = ground arith in rw (mutating, header, full, fits) refl

  claimed-live :
      (request : Request) (key : String) (ttls : Ttls) (now : ℕ) (world : W)
      (entries : List RedisEntry) (entry : RedisEntry)
      → get key now entries ≡ some entry
      → claimed_or_not handle request key ttls now world (claim key ttls.lock now entries)
        ≡ (((world, entries), replay_or_conflict handle (read key now entries)), none)
  unfolding claim
  claimed-live request key ttls now world entries entry h =
      ap
        (λ o.
          claimed_or_not handle request key ttls now world (claim_if o key ttls.lock now entries))
        h

  -- While Redis holds an entry for the request's key, being worked on or answered, the request has no
  -- effect: the world and the keys are as before, and it gets the stored answer or an error.
  pub live_key_has_no_effect :
      (request : Request) (key : String) (ttls : Ttls) (now : ℕ) (world : W)
      (entries : List RedisEntry) (entry : RedisEntry)
      → HasKey request key
      → get (build_redis_key request key) now entries ≡ some entry
      → intercept handle request ttls now world entries ≡ (
        (
          (world, entries),
          replay_or_conflict handle (read (build_redis_key request key) now entries),
        ),
        none,
      )
  live_key_has_no_effect request key ttls now world entries entry has live =
      keyed request key ttls now world entries has
      ∙ claimed-live request (build_redis_key request key) ttls now world entries entry live

first_code : String → ℕ
first_code String.[] = 0
first_code (String.◌∷◌ c s) = code c

-- A stored answer is an object, whose text starts with a brace.
not_in_progress :
    (response : CachedResponse)
    → str_eq (stringify (response_json response)) in_progress_text ≡ false
unfolding stringify put first_code
not_in_progress response =
    elim (Bool-cases (str_eq (stringify (response_json response)) in_progress_text)) [
      | inl t ↦
          let e = (eq_iff (stringify (response_json response)) in_progress_text).0 t in
          let codes : 123 ≡ 73 = ap first_code e in absurd (omega (arith, codes))
      | inr f ↦ f
    ]

as_response_kept :
    (status : ℕ) (body : Option JsonValue)
    → as_response (some (response_json (record { status = status; body = body })))
      ≡ cached (record { status = status; body = body })
as_response_kept status none = refl
as_response_kept status (some b) = refl

read_back_response :
    (response : CachedResponse) (key : String) (time : ℕ)
    → read_value_of
        (some (record { key = key; value = stringify (response_json response); expires_at = time }))
      ≡ cached response
read_back_response response key time =
    rw (not_in_progress response, parse-stringify (response_json response))
      (as_response_kept response.status response.body)

found_first :
    (p : RedisEntry → Bool) (e : RedisEntry) (rest : List RedisEntry)
    → p e ≡ true
    → find p (e ∷ rest) ≡ some e
found_first p e rest h = ground arith

found_later :
    (p : RedisEntry → Bool) (e : RedisEntry) (rest : List RedisEntry)
    → p e ≡ false
    → find p (e ∷ rest) ≡ find p rest
found_later p e rest h = ground arith

get-set :
    (key value : String) (ttl now later : ℕ) (entries : List RedisEntry)
    → later < now + ttl
    → get key later (set key value ttl now entries)
      ≡ some (record { key = key; value = value; expires_at = now + ttl })
unfolding get set
get-set key value ttl now later entries h =
    let fresh : ltb later (now + ttl) ≡ true = ground arith in
    let live : (str_eq key key && ltb later (now + ttl)) ≡ true = rw (eq_refl key, fresh) refl in
    found_first (is_live later key) _ (del key entries) live

completed-read :
    (key : String) (response : CachedResponse) (ttl now later : ℕ) (entries : List RedisEntry)
    → later < now + ttl
    → read key later (complete key response ttl now entries) ≡ cached response
unfolding complete read
completed-read key response ttl now later entries h =
    ap read_value_of (get-set key (stringify (response_json response)) ttl now later entries h)
    ∙ read_back_response response key (now + ttl)

get-del :
    (key : String) (time : ℕ) (entries : List RedisEntry) → get key time (del key entries) ≡ none
unfolding get del
get-del key time [] = refl
get-del key time (e ∷ entries) = ground (arith, get-del key time entries)

expired_free :
    (key value : String) (ttl now later : ℕ) (entries : List RedisEntry)
    → now + ttl ≤ later
    → get key later (set key value ttl now entries) ≡ none
unfolding get set
expired_free key value ttl now later entries h =
    let over : ltb later (now + ttl) ≡ false = ground arith in
    let gone : (str_eq key key && ltb later (now + ttl)) ≡ false = ground (arith, over) in
    found_later (is_live later key) _ (del key entries) gone ∙ get-del key later entries

claimed-read :
    (key : String) (ttl now later : ℕ) (entries : List RedisEntry)
    → later < now + ttl
    → read key later (set key in_progress_text ttl now entries) ≡ in_progress
unfolding read
claimed-read key ttl now later entries h =
    ap read_value_of (get-set key in_progress_text ttl now later entries h)

module _ {W : Type 0} (handle : Request → W → W × Handled) where
  claimed-free :
      (request : Request) (key : String) (ttls : Ttls) (now : ℕ) (world : W)
      (entries : List RedisEntry)
      → get key now entries ≡ none
      → claimed_or_not handle request key ttls now world (claim key ttls.lock now entries)
        ≡ cache_outcome handle request key ttls.response
            (set key in_progress_text ttls.lock now entries)
            (handle request world)
  unfolding claim
  claimed-free request key ttls now world entries h =
      ap
        (λ o.
          claimed_or_not handle request key ttls now world (claim_if o key ttls.lock now entries))
        h

  -- The same request, until the lock of its claim is over: a conflict, and no effect.
  abbrev pub IsLocked : Request → Ttls → ℕ → List RedisEntry → Type 0
  IsLocked request ttls now held =
      (later : ℕ) (world : W)
      → later < now + ttls.lock
      → intercept handle request ttls later world held
        ≡ (((world, held), refused idempotency_key_in_progress), none)

  -- The same request, once the write has landed, whenever and on whatever entries it does, and until
  -- the answer expires: this answer, replayed, and no effect.
  abbrev pub Replays : Request → Ttls → CacheWrite → Option JsonValue → Type 0
  Replays request ttls write answer =
      (time later : ℕ) (world : W) (found : List RedisEntry)
      → later < time + ttls.response
      → intercept handle request ttls later world (land write time found) ≡ (
        (
          (world, land write time found),
          replayed (record { status = resolve_status_code request; body = answer }),
        ),
        none,
      )

  locked_lem :
      (request : Request) (key : String) (ttls : Ttls) (now : ℕ) (entries : List RedisEntry)
      → HasKey request key
      → IsLocked request ttls now
          (set (build_redis_key request key) in_progress_text ttls.lock now entries)
  locked_lem request key ttls now entries has later world soon =
      let name = build_redis_key request key in
      let held = set name in_progress_text ttls.lock now entries in
      live_key_has_no_effect handle request key ttls later world held _ has
        (get-set name in_progress_text ttls.lock now later entries soon)
      ∙ ap (λ stored. (((world, held), replay_or_conflict handle stored), none))
          (claimed-read name ttls.lock now later entries soon)

  replays_lem :
      (request : Request) (key : String) (ttls : Ttls) (answer : Option JsonValue)
      → HasKey request key
      → Replays request ttls
          (keep_response
            (build_redis_key request key)
            (record { status = resolve_status_code request; body = answer })
            ttls.response)
          answer
  unfolding land complete
  replays_lem request key ttls answer has time later world found soon =
      let name = build_redis_key request key in
      let response : CachedResponse = record {
        status = resolve_status_code request;
        body = answer;
      } in
      let kept = complete name response ttls.response time found in
      live_key_has_no_effect handle request key ttls later world kept _ has
        (get-set name (stringify (response_json response)) ttls.response time later found soon)
      ∙ ap (λ stored. (((world, kept), replay_or_conflict handle stored), none))
          (completed-read name response ttls.response time later found soon)

  -- A request with a key that Redis does not hold is handled, and holds the key from then on: until
  -- its lock is over, the same request is refused as in progress and has no effect, and after that, if
  -- no write has landed, the key is free again. When the handler answers, the request gets the answer,
  -- and leaves a write on its way: once that has landed, at any time and on any entries, the same
  -- request gets exactly this answer, replayed, and has no effect, until the answer expires. When the
  -- handler throws, the write on its way frees the key, once it has landed.
  pub request_takes_effect_once :
      (request : Request) (key : String) (ttls : Ttls) (now : ℕ) (world : W)
      (entries : List RedisEntry)
      → HasKey request key
      → get (build_redis_key request key) now entries ≡ none
      → (held : List RedisEntry) × IsLocked request ttls now held
        × ((later : ℕ)
            → now + ttls.lock ≤ later
            → get (build_redis_key request key) later held ≡ none)
        × ((after : W) (answer : Option JsonValue)
            → handle request world ≡ (after, body answer)
            → (write : CacheWrite) × (intercept handle request ttls now world entries
                ≡ (((after, held), answered (resolve_status_code request) answer), some write))
              × Replays request ttls write answer)
        × ((after : W) (error : String)
            → handle request world ≡ (after, thrown error)
            → (write : CacheWrite) × (intercept handle request ttls now world entries
                ≡ (((after, held), failed error), some write))
              × ((time later : ℕ) (found : List RedisEntry)
                  → get (build_redis_key request key) later (land write time found) ≡ none))
  unfolding land release
  request_takes_effect_once request key ttls now world entries has free =
      let name = build_redis_key request key in
      let first =
        keyed handle request key ttls now world entries has
        ∙ claimed-free request name ttls now world entries free in
      let held = set name in_progress_text ttls.lock now entries in
      (
        held,
        locked_lem request key ttls now entries has,
        λ later over. expired_free name in_progress_text ttls.lock now later entries over,
        λ after answer done. (
          _,
          first ∙ ap (cache_outcome handle request name ttls.response held) done,
          replays_lem request key ttls answer has,
        ),
        λ after error done. (
          free_key name,
          first ∙ ap (cache_outcome handle request name ttls.response held) done,
          λ time later found. get-del name later found,
        ),
      )
