-- ===== src/Delivery/Names.antt =====
-- The names under which subscribers are registered are the keys of redelivery.
use mathlib.Core.Path.{subst}
use mathlib.Core.List.{append_assoc, append-nil}
use ratel_financial_platform.Prelude.{
  sym, Bool-cases, inl, inr, String, Bool, true, false, ◌||◌, List, [], ◌∷◌, ◌++◌, ◌≡◌, refl, arith,
  str_eq, eq_iff, if◌then◌else◌,
}
use ratel_financial_platform.Errors.{
  ok, >>=-eq-ok, throw_if, throw_if-eq-ok, ok-injective, duplicate_subscriber_name,
}
use ratel_financial_platform.Audit.Subscriber.{StoredEvent}
use ratel_financial_platform.Delivery.Dispatcher.{
  Registration, Registry, is_among, handlers_of, register, subscribers_for,
}

-- No name stands twice.
abbrev pub IsDistinct : List String → Type 0
IsDistinct [] = Unit
IsDistinct (n ∷ ns) = (is_among n ns ≡ false) × IsDistinct ns

is_among-append :
    (n : String) (xs ys : List String) → is_among n (xs ++ ys) ≡ (is_among n xs || is_among n ys)
is_among-append n [] ys = refl
is_among-append n (x ∷ xs) ys = ground (arith, is_among-append n xs ys)

-- `m` differs from all of `xs` and is not in `ys`, so it may be put between them.
distinct_insert :
    (m : String) (xs ys : List String)
    → IsDistinct (xs ++ ys)
    → is_among m xs ≡ false
    → is_among m ys ≡ false
    → IsDistinct (xs ++ (m ∷ ys))
distinct_insert m [] ys d h k = (k, d)
distinct_insert m (x ∷ xs) ys (f, d) h k =
    let there = is_among-append x xs (m ∷ ys) in
    let before = is_among-append x xs ys in
    let mx = eq_iff m x in
    let xm = eq_iff x m in
    let differ : str_eq m x ≡ false = elim (Bool-cases (str_eq m x)) [
      | inl t ↦ let e : str_eq x m ≡ true = xm.1 (sym (mx.0 t)) in ground arith
      | inr f' ↦ f'
    ] in
    (ground arith, distinct_insert m xs ys d (ground arith) k)

handlers_of-append :
    (t : String) (rows : List Registration) (globals : List String) (new : Registration)
    → handlers_of t (record { handlers = rows ++ new ∷ []; global_subscribers = globals })
      ≡ handlers_of t (record { handlers = rows; global_subscribers = globals })
        ++ (if str_eq new.event_type t then new.name ∷ [] else [])
unfolding handlers_of
handlers_of-append t [] globals new = ground arith
handlers_of-append t (r ∷ rows) globals new = ground (arith, handlers_of-append t rows globals new)

extended :
    (own : Bool) (name : String) (xs ys : List String)
    → IsDistinct (xs ++ ys)
    → ((own ≡ true) → (is_among name xs ≡ false) × (is_among name ys ≡ false))
    → IsDistinct ((xs ++ (if own then name ∷ [] else [])) ++ ys)
extended true name xs ys d fresh =
    subst IsDistinct (sym (append_assoc xs (name ∷ []) ys))
      (distinct_insert name xs ys d (fresh refl).0 (fresh refl).1)
extended false name xs ys d fresh = subst (λ l. IsDistinct (l ++ ys)) (sym (append-nil xs)) d

-- Registering a subscriber for an event type keeps the names that any event reaches distinct, so that
-- a redelivery by name finds the one subscriber that failed: if no event reaches a name twice before
-- `register` succeeds, none does after.
pub register_keeps-IsDistinct :
    (event_type name : String) (registry after : Registry)
    → register event_type name registry ≡ ok after
    → ((event : StoredEvent) → IsDistinct (subscribers_for event registry))
    → (event : StoredEvent) → IsDistinct (subscribers_for event after)
unfolding register subscribers_for
register_keeps-IsDistinct event_type name registry after h distinct event =
    let (_, local, h') =
      >>=-eq-ok
        (throw_if (is_among name (handlers_of event_type registry))
          (duplicate_subscriber_name name event_type))
        _ h in
    let (_, global, done) =
      >>=-eq-ok
        (throw_if (is_among name registry.global_subscribers)
          (duplicate_subscriber_name name event_type))
        _ h' in
    let fresh_local = throw_if-eq-ok (is_among name (handlers_of event_type registry)) _ local in
    let fresh_global = throw_if-eq-ok (is_among name registry.global_subscribers) _ global in
    let new : Registration = record { event_type = event_type; name = name } in
    subst (λ (r : Registry). IsDistinct (handlers_of event.type r ++ r.global_subscribers))
      (ok-injective done)
      (subst (λ l. IsDistinct (l ++ registry.global_subscribers))
        (sym (handlers_of-append event.type registry.handlers registry.global_subscribers new))
        (extended (str_eq event_type event.type) name (handlers_of event.type registry)
          registry.global_subscribers (distinct event)
          (λ own. (
            subst (λ t. is_among name (handlers_of t registry) ≡ false)
                ((eq_iff event_type event.type).0 own) fresh_local,
            fresh_global,
          ))))
