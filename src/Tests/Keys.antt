-- ===== src/Tests/Keys.antt =====
-- Reference data and idempotency keys on concrete requests.
use ratel_financial_platform.Prelude.{
  ℕ, ◌+◌, ◌≤◌, Option, String, true, none, some, List, [], ◌∷◌, ◌≡◌, ◌≢◌, refl, arith, eq_iff,
}
use ratel_financial_platform.Prelude.Texts.{is_empty_text}
use ratel_financial_platform.Errors.{ok}
use ratel_financial_platform.Serialization.Json.{JsonValue, text}
use ratel_financial_platform.ReferenceData.Named.{
  NamedRow, NamedStore, create_named, reference_data_created,
}
use ratel_financial_platform.ReferenceData.Unique.{IsUnique}
use ratel_financial_platform.ReferenceData.Steps.{begin, create, NamedSteps-IsUnique}
use ratel_financial_platform.Idempotency.Store.{RedisEntry, get}
use ratel_financial_platform.Idempotency.Interceptor.{
  Request, one, CacheWrite, land, Ttls, answered, failed, Handled, body, thrown, build_redis_key,
  resolve_status_code, intercept,
}
use ratel_financial_platform.Idempotency.Once.{HasKey, IsLocked, Replays, request_takes_effect_once}

abbrev sales : NamedRow
sales = record { id = "d1"; organization_id = "org"; name = "Sales"; is_active = true }

abbrev legal : NamedRow
legal = record { id = "d2"; organization_id = "org"; name = "Legal"; is_active = true }

abbrev store : NamedStore
store = record { rows = sales ∷ []; outbox = [] }

abbrev grown : NamedStore
grown = record {
  rows = sales ∷ legal ∷ [];
  outbox = reference_data_created "Department" "d2" "org" "Legal" ∷ [];
}

legal_created : create_named "Department" "d2" "org" "Legal" store ≡ ok grown
unfolding create_named
legal_created = refl

abbrev first_id : String
first_id = "d1"

ids_differ : first_id ≢ "d2"
ids_differ e = let t = (eq_iff "d1" "d2").1 e in cc

NamedSteps-IsUnique_example : IsUnique grown.rows
NamedSteps-IsUnique_example =
    NamedSteps-IsUnique "Department" store grown
      (create "d2" "org" "Legal" begin (ids_differ, tt) legal_created) (tt, tt)

abbrev request : Request
request = record {
  method = "POST";
  idempotency_key = some (one "k1");
  user_id = some "u1";
  ip = "::1";
  class_name = "ExpenseController";
  handler_name = "create";
  http_code = none;
}

abbrev count_up : Request → ℕ → ℕ × Handled
count_up r n = (n + 1, body (some (text "e1")))

abbrev ttls : Ttls
ttls = record { lock = 30_000; response = 86_400_000 }

has_key : HasKey request "k1"
unfolding is_empty_text
has_key = (refl, refl, refl, omega arith)

key_free : get (build_redis_key request "k1") 10 [] ≡ none
unfolding get
key_free = refl

request_takes_effect_once_example :
    (held : List RedisEntry) × IsLocked count_up request ttls 10 held
    × ((later : ℕ) → 10 + ttls.lock ≤ later → get (build_redis_key request "k1") later held ≡ none)
    × ((after : ℕ) (answer : Option JsonValue)
        → count_up request 0 ≡ (after, body answer)
        → (write : CacheWrite) × (intercept count_up request ttls 10 0 []
            ≡ (((after, held), answered (resolve_status_code request) answer), some write))
          × Replays count_up request ttls write answer)
    × ((after : ℕ) (error : String)
        → count_up request 0 ≡ (after, thrown error)
        → (write : CacheWrite) × (intercept count_up request ttls 10 0 []
            ≡ (((after, held), failed error), some write))
          × ((time later : ℕ) (found : List RedisEntry)
              → get (build_redis_key request "k1") later (land write time found) ≡ none))
request_takes_effect_once_example =
    request_takes_effect_once count_up request "k1" ttls 10 0 [] has_key key_free
