-- ===== src/Idempotency.antt =====
-- The `Idempotency-Key` header: idempotency/idempotency-store.service.ts and idempotency.interceptor.ts.
-- The keys are in Redis, whose `SET NX`, `GET`, `SET` and `DEL` with an expiry are modelled on entries
-- with the time at which they expire, as Redis documents them; `now` is the time of the call.
pub mod Store
pub mod Interceptor
pub mod Once
