-- ===== src/Delivery/Settles.antt =====
-- How a redelivery job ends.
use mathlib.Core.Path.{subst}
use ratel_financial_platform.Prelude.{
  ℕ, zero, suc, ◌+◌, ◌≤◌, ◌<◌, String, Bool, true, false, Option, none, some, List, [], ◌∷◌, ◌≡◌,
  ◌≢◌, ◌⊎◌, refl, ap, sym, ◌∙◌, arith, inl, inr, eq_iff, leb, if◌then◌else◌,
}
use ratel_financial_platform.Audit.Subscriber.{StoredEvent}
use ratel_financial_platform.Delivery.Dispatcher.{Registry, dispatch_to}
use ratel_financial_platform.Delivery.Deliveries.{
  DeliveryStatus, FailedDelivery, pending_retry, recovered, permanently_failed, find_delivery,
  update_delivery, mark_recovered, mark_permanently_failed, record_attempt,
}
use ratel_financial_platform.Delivery.Outbox.{OutboxEvent, DeliveryState, to_domain_event}
use ratel_financial_platform.Delivery.Redelivery.{
  Redelivered, threw, find_outbox, after_delivery, deliver_again, unless_recovered, redeliver_found,
  redeliver, after_run, process, run_job,
}

found-id :
    (id : String) (rows : List FailedDelivery) (r : FailedDelivery)
    → find_delivery id rows ≡ some r
    → r.id ≡ id
unfolding find_delivery
found-id id [] r h = cc
found-id id (x ∷ xs) r h = ground (arith, found-id id xs r, eq_iff x.id id)

find-update :
    (id : String) (change : FailedDelivery → FailedDelivery) (rows : List FailedDelivery)
    (r : FailedDelivery)
    → ((x : FailedDelivery) → (change x).id ≡ x.id)
    → find_delivery id rows ≡ some r
    → find_delivery id (update_delivery id change rows) ≡ some (change r)
unfolding find_delivery update_delivery
find-update id change [] r keeps h = cc
find-update id change (x ∷ xs) r keeps h = ground (arith, keeps x, find-update id change xs r keeps)

-- What one run of a job does to its row, and whether it threw.
pub data Attempted (last : Bool) (r r' : FailedDelivery) : Bool → Type 0 where
  succeeded : r'.status ≡ recovered → r'.attempts ≡ r.attempts + 1 → Attempted last r r' false
  lost : r'.status ≡ permanently_failed → r'.attempts ≡ r.attempts → Attempted last r r' false
  again :
      last ≡ false → r'.status ≡ r.status → r'.attempts ≡ r.attempts + 1 → Attempted last r r' true
  given_up :
      last ≡ true
      → r'.status ≡ permanently_failed
      → r'.attempts ≡ r.attempts + 1
      → Attempted last r r' true

own_row :
    (id : String) (change : FailedDelivery → FailedDelivery) (rows : List FailedDelivery)
    (r : FailedDelivery)
    → ((x : FailedDelivery) → (change x).id ≡ x.id)
    → find_delivery id rows ≡ some r
    → find_delivery id (update_delivery r.id change rows) ≡ some (change r)
own_row id change rows r keeps h =
    subst (λ i. find_delivery id (update_delivery i change rows) ≡ some (change r))
      (sym (found-id id rows r h)) (find-update id change rows r keeps h)

module _ {W J : Type 0} (run : String → StoredEvent → W → W × Option String)
    (registry : Registry) where
  abbrev Row : String → FailedDelivery → Bool → DeliveryState W J × Bool → Type 0
  Row id r last (state, thrown) =
      (r' : FailedDelivery) × (find_delivery id state.deliveries ≡ some r')
      × Attempted last r r' thrown

  run_thrown :
      (last : Bool) (id error : String) (state : DeliveryState W J) (r : FailedDelivery)
      → find_delivery id state.deliveries ≡ some r
      → Row id r last (after_run run registry last id (state, threw error))
  unfolding mark_permanently_failed record_attempt
  run_thrown true id error state r h =
      (_, find-update id _ state.deliveries r (λ x. refl) h, given_up refl refl refl)
  run_thrown false id error state r h =
      (_, find-update id _ state.deliveries r (λ x. refl) h, again refl refl refl)

  run_delivered :
      (last : Bool) (id : String) (state : DeliveryState W J) (r : FailedDelivery)
      (out : W × Option String)
      → find_delivery id state.deliveries ≡ some r
      → Row id r last (after_run run registry last id (after_delivery run registry r out state))
  unfolding mark_recovered
  run_delivered last id state r (world, some error) h =
      run_thrown last id error (record state { world = world }) r h
  run_delivered true id state r (world, none) h =
      (_, own_row id _ state.deliveries r (λ x. refl) h, succeeded refl refl)
  run_delivered false id state r (world, none) h =
      (_, own_row id _ state.deliveries r (λ x. refl) h, succeeded refl refl)

  run_again :
      (last : Bool) (id : String) (state : DeliveryState W J) (r : FailedDelivery)
      (o : Option OutboxEvent)
      → find_delivery id state.deliveries ≡ some r
      → Row id r last (after_run run registry last id (deliver_again run registry r o state))
  unfolding mark_permanently_failed
  run_again last id state r (some row) h =
      run_delivered last id state r
        (dispatch_to run registry r.subscriber_name (to_domain_event row) state.world) h
  run_again true id state r none h =
      (_, own_row id _ state.deliveries r (λ x. refl) h, lost refl refl)
  run_again false id state r none h =
      (_, own_row id _ state.deliveries r (λ x. refl) h, lost refl refl)

  retried :
      (status : DeliveryStatus) (state : DeliveryState W J) (next : DeliveryState W J × Redelivered)
      → status ≢ recovered
      → unless_recovered run registry status state next ≡ next
  retried recovered state next ne = absurd (ne refl)
  retried pending_retry state next ne = refl
  retried permanently_failed state next ne = refl

  process-Row :
      (made attempts : ℕ) (id : String) (state : DeliveryState W J) (r : FailedDelivery)
      → find_delivery id state.deliveries ≡ some r
      → r.status ≢ recovered
      → Row id r (leb attempts (made + 1)) (process run registry made attempts id state)
  unfolding process redeliver
  process-Row made attempts id state r h ne =
      let next = deliver_again run registry r (find_outbox r.outbox_event_id state.outbox) state in
      let same : redeliver_found run registry (find_delivery id state.deliveries) state ≡ next =
        ap (λ o. redeliver_found run registry o state) h ∙ retried r.status state next ne in
      subst
        (λ x.
          Row id r (leb attempts (made + 1))
            (after_run run registry (leb attempts (made + 1)) id x))
        (sym same)
        (run_again (leb attempts (made + 1)) id state r (find_outbox r.outbox_event_id state.outbox)
          h)

-- The row is recovered or given up, after at least no and at most so many further attempts.
abbrev pub Settled : FailedDelivery → ℕ → FailedDelivery → Type 0
Settled r left r' =
    ((r'.status ≡ recovered) ⊎ (r'.status ≡ permanently_failed))
    × (r.attempts ≤ r'.attempts)
    × (r'.attempts ≤ r.attempts + left)

module _ {W J : Type 0} (run : String → StoredEvent → W → W × Option String)
    (registry : Registry) where
  settle_rest :
      (left made attempts : ℕ) (id : String) (r r' : FailedDelivery) (state : DeliveryState W J)
      (thrown : Bool)
      → made + suc left ≡ attempts
      → Attempted (leb attempts (made + 1)) r r' thrown
      → find_delivery id state.deliveries ≡ some r'
      → r.status ≢ recovered
      → ((zero ≡ left → ⊥)
          → r'.status ≢ recovered
          → (q : FailedDelivery) × (find_delivery id
                (run_job run registry left (made + 1) attempts id state).deliveries
              ≡ some q)
            × Settled r' left q)
      → (q : FailedDelivery) × (find_delivery id
            (if thrown
              then run_job run registry left (made + 1) attempts id state
              else state).deliveries
          ≡ some q)
        × Settled r (suc left) q
  unfolding run_job
  settle_rest left made attempts id r r' state false e (succeeded s n) h ne rest =
      (r', h, (inl s, omega (arith, n), omega (arith, n)))
  settle_rest left made attempts id r r' state false e (lost s n) h ne rest =
      (r', h, (inr s, omega (arith, n), omega (arith, n)))
  settle_rest zero made attempts id r r' state true e (again last s n) h ne rest =
      absurd (ground arith)
  settle_rest (suc left) made attempts id r r' state true e (again last s n) h ne rest =
      let (q, found, (end, low, high)) = rest (λ z. omega (arith, z)) (λ t. ne (sym s ∙ t)) in
      (q, found, (end, omega (arith, n), omega (arith, n)))
  settle_rest zero made attempts id r r' state true e (given_up last s n) h ne rest =
      (r', h, (inr s, omega (arith, n), omega (arith, n)))
  settle_rest (suc left) made attempts id r r' state true e (given_up last s n) h ne rest =
      absurd (ground arith)

  settles :
      (left made attempts : ℕ) (id : String) (state : DeliveryState W J) (r : FailedDelivery)
      → made + suc left ≡ attempts
      → find_delivery id state.deliveries ≡ some r
      → r.status ≢ recovered
      → (q : FailedDelivery) × (find_delivery id
            (run_job run registry (suc left) made attempts id state).deliveries
          ≡ some q)
        × Settled r (suc left) q
  unfolding run_job
  settles zero made attempts id state r e h ne =
      let (r', found, attempt) = process-Row run registry made attempts id state r h ne in
      let (after, thrown) = process run registry made attempts id state in
      settle_rest zero made attempts id r r' after thrown e attempt found ne
        (λ positive. absurd (positive refl))
  settles (suc left) made attempts id state r e h ne =
      let (r', found, attempt) = process-Row run registry made attempts id state r h ne in
      let (after, thrown) = process run registry made attempts id state in
      settle_rest (suc left) made attempts id r r' after thrown e attempt found ne
        (λ _ ne'. settles left (made + 1) attempts id after r' (omega arith) found ne')

  -- A redelivery job that BullMQ runs until it does not throw, and at most `attempts` times, which is
  -- not 0, ends with its row recovered or permanently failed, when the row is there and is not recovered
  -- at the start. The row's count of attempts grows by at most `attempts`, and does not shrink.
  pub run_job_settles :
      (attempts : ℕ) (id : String) (state : DeliveryState W J) (r : FailedDelivery)
      → 0 < attempts
      → find_delivery id state.deliveries ≡ some r
      → r.status ≢ recovered
      → (q : FailedDelivery) × (find_delivery id
            (run_job run registry attempts 0 attempts id state).deliveries
          ≡ some q)
        × Settled r attempts q
  run_job_settles zero id state r pos h ne = absurd (omega arith)
  run_job_settles (suc left) id state r pos h ne =
      settles left 0 (suc left) id state r (omega arith) h ne
