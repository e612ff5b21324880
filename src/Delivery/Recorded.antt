-- ===== src/Delivery/Recorded.antt =====
-- What a poll leaves of the events that it took and of the failures that it met.
use mathlib.Core.Path.{subst}
use mathlib.Core.List.{Memᴰ}
use mathlib.Core.List.Memᴰ
use ratel_financial_platform.Prelude.{
  sym, ◌∙◌, keep, take, ℕ, String, Bool, true, false, ◌&&◌, Option, none, some, List, [], ◌∷◌, ◌++◌,
  ◌≡◌, ◌⊎◌, refl, arith, inl, inr, str_eq, eq_refl, any, find, map, All,
}
use ratel_financial_platform.Audit.Subscriber.{StoredEvent}
use ratel_financial_platform.Delivery.Dispatcher.{
  Registration, Registry, SubscriberFailure, settle, dispatch, subscribers_for, handlers_of,
}
use ratel_financial_platform.Delivery.Deliveries.{
  FailedDelivery, pending_retry, is_pair, find_pair, update_pair, failed_again, upsert_at,
  upsert_failure, record_failures, organization_id_from_payload,
}
use ratel_financial_platform.Delivery.Outbox.{
  OutboxEvent, DeliveryState, Fault, at_update, at_record, after_dispatch, is_pending,
  mark_dispatched, to_domain_event, pending_batch, dispatch_row, dispatch_rows,
  dispatch_pending_batch, schedule_retries,
}

-- A row of the pair waits for a retry.
abbrev pub IsOwed : List FailedDelivery → String × String → Type 0
IsOwed rows (event_id, name) =
    (q : FailedDelivery) × (find_pair event_id name rows ≡ some q) × (q.status ≡ pending_retry)

find-append_new :
    (p : FailedDelivery → Bool) (rows : List FailedDelivery) (new : FailedDelivery)
    → find p rows ≡ none
    → p new ≡ true
    → find p (rows ++ new ∷ []) ≡ some new
find-append_new p [] new h k = ground arith
find-append_new p (r ∷ rows) new h k = ground (arith, find-append_new p rows new)

find-append_old :
    (p : FailedDelivery → Bool) (rows : List FailedDelivery) (new q : FailedDelivery)
    → find p rows ≡ some q
    → find p (rows ++ new ∷ []) ≡ some q
find-append_old p [] new q h = cc
find-append_old p (r ∷ rows) new q h = ground (arith, find-append_old p rows new q)

find_pair-update :
    (e n : String) (change : FailedDelivery → FailedDelivery) (rows : List FailedDelivery)
    (q : FailedDelivery)
    → ((r : FailedDelivery) → is_pair e n (change r) ≡ is_pair e n r)
    → find_pair e n rows ≡ some q
    → find_pair e n (update_pair e n change rows) ≡ some (change q)
unfolding find_pair update_pair
find_pair-update e n change [] q keeps h = cc
find_pair-update e n change (r ∷ rows) q keeps h =
    ground (arith, keeps r, find_pair-update e n change rows q keeps)

-- An update of one pair leaves the row of a pair as it was, or changes it.
find_pair-update_any :
    (e n e' n' : String) (change : FailedDelivery → FailedDelivery) (rows : List FailedDelivery)
    (q : FailedDelivery)
    → ((r : FailedDelivery) → is_pair e n (change r) ≡ is_pair e n r)
    → find_pair e n rows ≡ some q
    → (find_pair e n (update_pair e' n' change rows) ≡ some q)
      ⊎ (find_pair e n (update_pair e' n' change rows) ≡ some (change q))
unfolding find_pair update_pair
find_pair-update_any e n e' n' change [] q keeps h = cc
find_pair-update_any e n e' n' change (r ∷ rows) q keeps h =
    ground (arith, keeps r, find_pair-update_any e n e' n' change rows q keeps)

find_pair-append_new :
    (e n : String) (rows : List FailedDelivery) (new : FailedDelivery)
    → find_pair e n rows ≡ none
    → is_pair e n new ≡ true
    → find_pair e n (rows ++ new ∷ []) ≡ some new
unfolding find_pair
find_pair-append_new e n rows new h k = find-append_new (is_pair e n) rows new h k

find_pair-append_old :
    (e n : String) (rows : List FailedDelivery) (new q : FailedDelivery)
    → find_pair e n rows ≡ some q
    → find_pair e n (rows ++ new ∷ []) ≡ some q
unfolding find_pair
find_pair-append_old e n rows new q h = find-append_old (is_pair e n) rows new q h

own_pair : (e n : String) → (str_eq e e && str_eq n n) ≡ true
own_pair e n = rw (eq_refl e, eq_refl n) refl

module _ (uuid : ℕ → String) (now : ℕ) where
  upsert_at-IsOwed :
      (e type org : String) (f : SubscriberFailure) (rows : List FailedDelivery)
      (o : Option FailedDelivery)
      → find_pair e f.subscriber_name rows ≡ o
      → IsOwed (upsert_at uuid now o e type org f rows) (e, f.subscriber_name)
  upsert_at-IsOwed e type org f rows none h =
      (_, find_pair-append_new e f.subscriber_name rows _ h (own_pair e f.subscriber_name), refl)
  upsert_at-IsOwed e type org f rows (some q) h =
      (_, find_pair-update e f.subscriber_name (failed_again f org) rows q (λ r. refl) h, refl)

  upsert_at_keeps-IsOwed :
      (e type org : String) (f : SubscriberFailure) (rows : List FailedDelivery)
      (o : Option FailedDelivery) (pair : String × String)
      → IsOwed rows pair
      → IsOwed (upsert_at uuid now o e type org f rows) pair
  upsert_at_keeps-IsOwed e type org f rows none (e', n') (q, found, waits) =
      (q, find_pair-append_old e' n' rows _ q found, waits)
  upsert_at_keeps-IsOwed e type org f rows (some p) (e', n') (q, found, waits) =
      elim (find_pair-update_any e' n' e f.subscriber_name (failed_again f org) rows q (λ r. refl)
        found) [ inl same ↦ (q, same, waits) | inr changed ↦ (failed_again f org q, changed, refl) ]

  record_failures_keeps-IsOwed :
      (e type org : String) (fs : List SubscriberFailure) (rows : List FailedDelivery)
      (pair : String × String)
      → IsOwed rows pair
      → IsOwed (record_failures uuid now e type fs org rows) pair
  unfolding record_failures upsert_failure
  record_failures_keeps-IsOwed e type org [] rows pair h = h
  record_failures_keeps-IsOwed e type org (f ∷ fs) rows pair h =
      record_failures_keeps-IsOwed e type org fs (upsert_failure uuid now e type org f rows) pair
        (upsert_at_keeps-IsOwed e type org f rows (find_pair e f.subscriber_name rows) pair h)

  record_failures-IsOwed :
      (e type org : String) (fs : List SubscriberFailure) (rows : List FailedDelivery)
      → All
          (λ (f : SubscriberFailure).
            IsOwed (record_failures uuid now e type fs org rows) (e, f.subscriber_name))
          fs
  unfolding record_failures upsert_failure
  record_failures-IsOwed e type org [] rows = tt
  record_failures-IsOwed e type org (f ∷ fs) rows =
      let after = upsert_failure uuid now e type org f rows in
      (
        record_failures_keeps-IsOwed e type org fs after (e, f.subscriber_name)
            (upsert_at-IsOwed e type org f rows (find_pair e f.subscriber_name rows) refl),
        record_failures-IsOwed e type org fs after,
      )

-- An outbox row of the id is still pending.
abbrev pub is_waiting : String → List OutboxEvent → Bool
is_waiting id rows = any (λ (r : OutboxEvent). str_eq r.id id && is_pending r) rows

marked_own :
    (id : String) (now : ℕ) (rows : List OutboxEvent)
    → is_waiting id (mark_dispatched id now rows) ≡ false
unfolding mark_dispatched
marked_own id now [] = refl
marked_own id now (r ∷ rows) = ground (arith, marked_own id now rows)

marked_other :
    (id other : String) (now : ℕ) (rows : List OutboxEvent)
    → is_waiting id rows ≡ false
    → is_waiting id (mark_dispatched other now rows) ≡ false
unfolding mark_dispatched
marked_other id other now [] h = refl
marked_other id other now (r ∷ rows) h = ground (arith, marked_other id other now rows)

All-mem :
    (P : SubscriberFailure → Type 0) (fs : List SubscriberFailure) {f : SubscriberFailure}
    → All P fs
    → Memᴰ f fs
    → P f
All-mem P [] h m = absurd (Memᴰ.not-nil m)
All-mem P (g ∷ fs) (p, h) (Memᴰ.head e) = subst P (sym e) p
All-mem P (g ∷ fs) (p, h) (Memᴰ.tail m) = All-mem P fs h m

behind : {f : SubscriberFailure} (xs ys : List SubscriberFailure) → Memᴰ f ys → Memᴰ f (xs ++ ys)
behind [] ys m = m
behind (x ∷ xs) ys m = Memᴰ.tail (behind xs ys m)

module _ {W : Type 0} (run : String → StoredEvent → W → W × Option String) where
  -- The world after the subscribers of these names were called, one after another.
  abbrev pub called : List String → StoredEvent → W → W
  called [] event world = world
  called (name ∷ names) event world = called names event (run name event world).0

  -- A subscriber of this name throws when they are called.
  abbrev pub Threw : List String → StoredEvent → W → String → Type 0
  Threw [] event world name = ⊥
  Threw (first ∷ names) event world name =
      ((first ≡ name) × ((error : String) × ((run first event world).1 ≡ some error)))
      ⊎ Threw names event (run first event world).0 name

  settle-world :
      (names : List String) (event : StoredEvent) (world : W)
      → (settle run names event world).0 ≡ called names event world
  unfolding settle
  settle-world [] event world = refl
  settle-world (name ∷ names) event world = settle-world names event (run name event world).0

  settle-failures :
      (names : List String) (event : StoredEvent) (world : W) (name : String)
      → Threw names event world name
      → (f : SubscriberFailure) × Memᴰ f (settle run names event world).1
        × (f.subscriber_name ≡ name)
  unfolding settle
  settle-failures [] event world name h = absurd h
  settle-failures (first ∷ names) event world name (inl (same, (error, thrown))) =
      (record { subscriber_name = first; error = error }, rw thrown (Memᴰ.head refl), same)
  settle-failures (first ∷ names) event world name (inr later) =
      let (f, m, is) = settle-failures names event (run first event world).0 name later in
      (f, behind _ _ m, is)

module _ {W J : Type 0} (run : String → StoredEvent → W → W × Option String)
    (add_job : String → J → Option J) (uuid : ℕ → String) (registry : Registry)
    (fault : String → Option Fault) where
  -- The names that are registered for an event of the type, then those registered for every event.
  abbrev pub names_for : String → List String
  names_for type =
      map (λ (r : Registration). r.name)
        (keep (λ (r : Registration). str_eq r.event_type type) registry.handlers)
      ++ registry.global_subscribers

  -- The world after the subscribers of these rows' events were called.
  abbrev pub world_after : List OutboxEvent → W → W
  world_after [] world = world
  world_after (row ∷ rows) world =
      world_after rows (called run (names_for row.event_type) (to_domain_event row) world)

  after_dispatch_world :
      (o : Option Fault) (now : ℕ) (row : OutboxEvent) (fs : List SubscriberFailure)
      (state : DeliveryState W J)
      → (after_dispatch run add_job uuid registry fault o now row fs state).world ≡ state.world
  unfolding schedule_retries
  after_dispatch_world none now row fs state = refl
  after_dispatch_world (some at_update) now row fs state = refl
  after_dispatch_world (some (at_record n)) now row fs state = refl

  dispatch_row_world :
      (now : ℕ) (row : OutboxEvent) (state : DeliveryState W J)
      → (dispatch_row run add_job uuid registry fault now row state).world
        ≡ called run (names_for row.event_type) (to_domain_event row) state.world
  unfolding dispatch_row dispatch subscribers_for handlers_of to_domain_event
  dispatch_row_world now row state =
      after_dispatch_world (fault row.id) now row _ _
      ∙ settle-world run (names_for row.event_type) (to_domain_event row) state.world

  after_keeps-IsOwed :
      (o : Option Fault) (now : ℕ) (row : OutboxEvent) (fs : List SubscriberFailure)
      (state : DeliveryState W J) (pair : String × String)
      → IsOwed state.deliveries pair
      → IsOwed (after_dispatch run add_job uuid registry fault o now row fs state).deliveries pair
  unfolding schedule_retries
  after_keeps-IsOwed (some at_update) now row fs state pair h = h
  after_keeps-IsOwed (some (at_record n)) now row fs state pair h =
      record_failures_keeps-IsOwed uuid now row.id row.event_type _ (take n fs) state.deliveries
        pair h
  after_keeps-IsOwed none now row fs state pair h =
      record_failures_keeps-IsOwed uuid now row.id row.event_type _ fs state.deliveries pair h

  rows_keep-IsOwed :
      (now : ℕ) (rows : List OutboxEvent) (state : DeliveryState W J) (pair : String × String)
      → IsOwed state.deliveries pair
      → IsOwed (dispatch_rows run add_job uuid registry fault now rows state).deliveries pair
  unfolding dispatch_rows dispatch_row
  rows_keep-IsOwed now [] state pair h = h
  rows_keep-IsOwed now (row ∷ rows) state pair h =
      rows_keep-IsOwed now rows (dispatch_row run add_job uuid registry fault now row state) pair
        (after_keeps-IsOwed (fault row.id) now row _ _ pair h)

  after_keeps_marked :
      (o : Option Fault) (now : ℕ) (row : OutboxEvent) (fs : List SubscriberFailure)
      (state : DeliveryState W J) (id : String)
      → is_waiting id state.outbox ≡ false
      → is_waiting id (after_dispatch run add_job uuid registry fault o now row fs state).outbox
        ≡ false
  unfolding schedule_retries
  after_keeps_marked (some at_update) now row fs state id h = h
  after_keeps_marked (some (at_record n)) now row fs state id h =
      marked_other id row.id now state.outbox h
  after_keeps_marked none now row fs state id h = marked_other id row.id now state.outbox h

  rows_keep_marked :
      (now : ℕ) (rows : List OutboxEvent) (state : DeliveryState W J) (id : String)
      → is_waiting id state.outbox ≡ false
      → is_waiting id (dispatch_rows run add_job uuid registry fault now rows state).outbox ≡ false
  unfolding dispatch_rows dispatch_row
  rows_keep_marked now [] state id h = h
  rows_keep_marked now (row ∷ rows) state id h =
      rows_keep_marked now rows (dispatch_row run add_job uuid registry fault now row state) id
        (after_keeps_marked (fault row.id) now row _ _ id h)

  -- What holds of a row when the poll is over: it is dispatched, and owes its failures their retry.
  abbrev Handled : OutboxEvent → W → DeliveryState W J → Type 0
  Handled row world state =
      (is_waiting row.id state.outbox ≡ false)
      × ((name : String)
          → Threw run (names_for row.event_type) (to_domain_event row) world name
          → IsOwed state.deliveries (row.id, name))

  row-Handled :
      (now : ℕ) (row : OutboxEvent) (state : DeliveryState W J)
      → fault row.id ≡ none
      → Handled row state.world (dispatch_row run add_job uuid registry fault now row state)
  unfolding dispatch_row schedule_retries dispatch subscribers_for handlers_of to_domain_event
  row-Handled now row state fine = rw fine (
    marked_own row.id now state.outbox,
    λ name threw.
        let (f, m, is) =
          settle-failures run (names_for row.event_type) (to_domain_event row) state.world name
            threw in
        let fs = (settle run (names_for row.event_type) (to_domain_event row) state.world).1 in
        let org = organization_id_from_payload row.payload in
        let rows = record_failures uuid now row.id row.event_type fs org state.deliveries in
        subst (λ n. IsOwed rows (row.id, n)) is
          (All-mem (λ (f : SubscriberFailure). IsOwed rows (row.id, f.subscriber_name)) fs
            (record_failures-IsOwed uuid now row.id row.event_type org fs state.deliveries) m),
  )

  rows-Handled :
      (now : ℕ) (earlier : List OutboxEvent) (row : OutboxEvent) (later : List OutboxEvent)
      (state : DeliveryState W J)
      → fault row.id ≡ none
      → Handled row
          (world_after earlier state.world)
          (dispatch_rows run add_job uuid registry fault now (earlier ++ row ∷ later) state)
  unfolding dispatch_rows
  rows-Handled now [] row later state fine =
      let (marked, owed) = row-Handled now row state fine in
      let after = dispatch_row run add_job uuid registry fault now row state in
      (
        rows_keep_marked now later after row.id marked,
        λ name threw. rows_keep-IsOwed now later after (row.id, name) (owed name threw),
      )
  rows-Handled now (first ∷ earlier) row later state fine =
      let after = dispatch_row run add_job uuid registry fault now first state in
      subst
        (λ w.
          Handled row (world_after earlier w)
            (dispatch_rows run add_job uuid registry fault now (earlier ++ row ∷ later) after))
        (dispatch_row_world now first state) (rows-Handled now earlier row later after fine)

  -- A row that a poll takes, for which the database does not throw, is not pending afterwards; and each
  -- subscriber that throws when the row's event is given to the subscribers registered for its type and
  -- to the global ones, in the world that the earlier rows' subscribers left, has a row of failed
  -- deliveries, under the event's id and its name, that waits for a retry. This does not depend on the
  -- queue, nor on what happens to the other rows: a job that cannot be added loses no failure, and a row
  -- for which the database throws disturbs no other.
  pub dispatch_pending_batch_loses_nothing :
      (size now : ℕ) (state : DeliveryState W J) (earlier : List OutboxEvent) (row : OutboxEvent)
      (later : List OutboxEvent)
      → pending_batch size state.outbox ≡ earlier ++ row ∷ later
      → fault row.id ≡ none
      → let after = dispatch_pending_batch run add_job uuid registry fault size now state in
        (is_waiting row.id after.outbox ≡ false)
        × ((name : String)
            → Threw run
                (names_for row.event_type)
                (to_domain_event row)
                (world_after earlier state.world)
                name
            → IsOwed after.deliveries (row.id, name))
  unfolding dispatch_pending_batch
  dispatch_pending_batch_loses_nothing size now state earlier row later taken fine =
      subst
        (λ rows.
          Handled row (world_after earlier state.world)
            (dispatch_rows run add_job uuid registry fault now rows state))
        (sym taken) (rows-Handled now earlier row later state fine)
