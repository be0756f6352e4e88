-- ===== src/Outbox/Dispatch.antt =====
-- What a dispatch of backend/app/outbox.py promises.
use the_vc_brain.Prelude.{
  ℕ, suc, ◌+◌, ◌*◌, ◌^◌, ◌≤◌, ◌≡◌, refl, Bool, Option, none, some, List, [], ◌∷◌, String, length,
  length-append, length-take-le, min, take, arith, Bool-cases, inl, inr, ◌∙◌, zero,
}
use the_vc_brain.Time.{second}
use the_vc_brain.Outbox.{
  OutboxEvent, PoolCall, Run, backoff, bounded_limit, call_of, pending_events, failing, attempted,
  dispatch_events, dispatch_pending_outbox,
}

small_exponent : (n : ℕ) → n ≤ 8 → (1 ≤ 2 ^ n) × (2 ^ n ≤ 256)
small_exponent zero h = (omega arith, omega arith)
small_exponent (suc zero) h = (omega arith, omega arith)
small_exponent (suc (suc zero)) h = (omega arith, omega arith)
small_exponent (suc (suc (suc zero))) h = (omega arith, omega arith)
small_exponent (suc (suc (suc (suc zero)))) h = (omega arith, omega arith)
small_exponent (suc (suc (suc (suc (suc zero))))) h = (omega arith, omega arith)
small_exponent (suc (suc (suc (suc (suc (suc zero)))))) h = (omega arith, omega arith)
small_exponent (suc (suc (suc (suc (suc (suc (suc zero))))))) h = (omega arith, omega arith)
small_exponent (suc (suc (suc (suc (suc (suc (suc (suc zero)))))))) h = (omega arith, omega arith)
small_exponent (suc (suc (suc (suc (suc (suc (suc (suc (suc n))))))))) h = absurd (omega (arith, h))

backoff_range : (n : ℕ) → (1 ≤ backoff n) × (backoff n ≤ 256)
backoff_range n =
    let (low, high) = small_exponent (min n 8) (omega arith) in
    (omega (arith, low), omega (arith, high))

-- A failed event waits between one second and 256 seconds: the cap of 300 seconds is never met.
failing_backoff :
    (now : ℕ) (error : String) (event : OutboxEvent)
    → (now + second ≤ (failing now error event).available_at)
      × ((failing now error event).available_at ≤ now + 256 * second)
      × ((failing now error event).attempts ≡ event.attempts + 1)
      × ((failing now error event).status ≡ event.status)
unfolding failing
failing_backoff now error event =
    let (low, high) = backoff_range (event.attempts + 1) in
    (omega (arith, low), omega (arith, high), refl, refl)

length-bounded : (limit : ℕ) (xs : List OutboxEvent) → length (take (bounded_limit limit) xs) ≤ 200
length-bounded limit xs = omega (arith, length-take-le (bounded_limit limit) xs)

module _ (accepts : ℕ → Bool) (error_text : OutboxEvent → String) where
  -- the counters of a run agree with its calls
  abbrev IsCounted : Run → ℕ → Type 0
  IsCounted run n = (run.dispatched + run.failed ≡ n) × (length run.calls ≡ run.dispatched)

  attempted-IsCounted :
      (now : ℕ) (event : OutboxEvent) (c : Option PoolCall) (run : Run) (n : ℕ)
      → IsCounted run n
      → IsCounted (attempted accepts error_text now event c run) (n + 1)
  attempted-IsCounted now event none run n h = (omega (arith, h.0), h.1)
  attempted-IsCounted now event (some c) run n h =
      elim (Bool-cases (accepts (run.dispatched + run.failed))) [
        | inl e ↦ rw e (omega (arith, h.0), length-append run.calls (c ∷ []) ∙ omega (arith, h.1))
        | inr e ↦ rw e (omega (arith, h.0), h.1)
      ]

  dispatch_events-IsCounted :
      (now : ℕ) (events : List OutboxEvent) (run : Run) (n : ℕ)
      → IsCounted run n
      → IsCounted (dispatch_events accepts error_text now events run) (n + length events)
  unfolding dispatch_events
  dispatch_events-IsCounted now [] run n h = (omega (arith, h.0), h.1)
  dispatch_events-IsCounted now (event ∷ rest) run n h =
      let next = attempted accepts error_text now event (call_of event.payload) run in
      let (sum, calls) =
        dispatch_events-IsCounted now rest next (n + 1)
          (attempted-IsCounted now event (call_of event.payload) run n h) in
      (omega (arith, sum), calls)

  -- The report of a run adds up: every event that was found was dispatched or failed, there is one
  -- call of the pool for each that was dispatched, and no run takes more than 200 events.
  pub dispatch_pending_outbox_lem :
      (now limit : ℕ) (locked : ℕ → Bool) (rows : List OutboxEvent)
      → let (run, found) = dispatch_pending_outbox accepts error_text now limit locked rows in
        (run.dispatched + run.failed ≡ found) × (length run.calls ≡ run.dispatched) × (found ≤ 200)
  unfolding dispatch_pending_outbox pending_events
  dispatch_pending_outbox_lem now limit locked rows =
      let events = pending_events now limit locked rows in
      let (sum, calls) =
        dispatch_events-IsCounted now events
          (record { rows = rows; calls = []; dispatched = 0; failed = 0 }) 0 (refl, refl) in
      (omega (arith, sum), calls, length-bounded limit _)
