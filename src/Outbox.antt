-- ===== src/Outbox.antt =====
-- backend/app/outbox.py: the transactional outbox. The rows of the session are passed and returned.
-- The pool is the package arq: an argument says of each event, by its number, whether its call goes
-- through, and another gives the text of the exception, cut to 1000 characters.
pub mod Dispatch
use the_vc_brain.Prelude.{
  ℕ, ◌+◌, ◌*◌, ◌^◌, Bool, true, false, Option, none, some, List, [], ◌∷◌, ◌++◌, String, str_eq,
  ◌==◌, ◌&&◌, if◌then◌else◌, keep, take, length, leb, ltb, min, max, update_where,
}
use the_vc_brain.Time.{second}
use the_vc_brain.Models.{Metadata}

-- `payload.get("kwargs", {})`: absent, a dictionary, or another value
pub data Kwargs : Type 0 where
  absent : Kwargs
  object : Metadata → Kwargs
  other : Kwargs

-- A payload with the keys that the dispatch reads.
pub record Payload : Type 0 where
  pub job_name : Option String
  pub kwargs : Kwargs

pub record OutboxEvent : Type 0 where
  pub id : ℕ
  pub payload : Payload
  pub status : String
  pub attempts : ℕ
  pub available_at : ℕ
  pub dispatched_at : Option ℕ
  pub last_error : Option String
  pub created_at : ℕ

-- `min(300, 2 ** min(event.attempts, 8))`, in seconds
abbrev pub backoff : ℕ → ℕ
backoff attempts = min 300 (2 ^ min attempts 8)

-- `max(1, min(limit, 200))`
abbrev pub bounded_limit : ℕ → ℕ
bounded_limit limit = max 1 (min limit 200)

-- A call of the pool.
pub data PoolCall : Type 0 where
  call : String → Metadata → PoolCall

-- The call that a payload asks for, or the error of a bad one.
abbrev pub call_of : Payload → Option PoolCall
call_of payload = elim payload.job_name [
  | none ↦ none
  | some name ↦ elim payload.kwargs [
    | absent ↦ some (call name [])
    | object kwargs ↦ some (call name kwargs)
    | other ↦ none
  ]
]

-- `ORDER BY created_at`
abbrev pub insert_event : OutboxEvent → List OutboxEvent → List OutboxEvent
insert_event e [] = e ∷ []
insert_event e (f ∷ rest) =
    let more = insert_event e rest in
    if leb e.created_at f.created_at then e ∷ f ∷ rest else f ∷ more

abbrev pub sort_events : List OutboxEvent → List OutboxEvent
sort_events [] = []
sort_events (e ∷ rest) = insert_event e (sort_events rest)

-- the query, with the rows that other workers have locked
unfoldable pub pending_events : ℕ → ℕ → (ℕ → Bool) → List OutboxEvent → List OutboxEvent
pending_events now limit locked rows = take (bounded_limit limit) (
    sort_events (
      keep
        (λ (e : OutboxEvent).
          str_eq e.status "pending"
          && leb e.available_at now
          && (if locked e.id then false else true))
        rows))

-- The events after the loop so far, the calls, and the counters.
pub record Run : Type 0 where
  pub rows : List OutboxEvent
  pub calls : List PoolCall
  pub dispatched : ℕ
  pub failed : ℕ

abbrev pub save_event : OutboxEvent → List OutboxEvent → List OutboxEvent
save_event e = update_where (λ (r : OutboxEvent). r.id == e.id) (λ (r : OutboxEvent). e)

-- the `except` branch
unfoldable pub failing : ℕ → String → OutboxEvent → OutboxEvent
failing now error event =
    let attempts = event.attempts + 1 in
    record event {
      attempts = attempts;
      available_at = now + backoff attempts * second;
      last_error = some error;
    }

-- the `else` branch
unfoldable pub succeeding : ℕ → OutboxEvent → OutboxEvent
succeeding now event = record event {
  status = "dispatched";
  dispatched_at = some now;
  last_error = none;
}

module _ (accepts : ℕ → Bool) (error_text : OutboxEvent → String) where
  abbrev pub attempted : ℕ → OutboxEvent → Option PoolCall → Run → Run
  attempted now event none run = record run {
    rows = save_event (failing now (error_text event) event) run.rows;
    failed = run.failed + 1;
  }
  attempted now event (some c) run =
      if accepts (run.dispatched + run.failed)
      then record run {
        rows = save_event (succeeding now event) run.rows;
        calls = run.calls ++ c ∷ [];
        dispatched = run.dispatched + 1;
      }
      else record run {
        rows = save_event (failing now (error_text event) event) run.rows;
        failed = run.failed + 1;
      }

  unfoldable pub dispatch_events : ℕ → List OutboxEvent → Run → Run
  unfolding failing succeeding
  dispatch_events now [] run = run
  dispatch_events now (event ∷ rest) run =
      dispatch_events now rest (attempted now event (call_of event.payload) run)

  -- the run, and the number of events found
  unfoldable pub dispatch_pending_outbox : ℕ → ℕ → (ℕ → Bool) → List OutboxEvent → Run × ℕ
  unfolding dispatch_events pending_events
  dispatch_pending_outbox now limit locked rows =
      let events = pending_events now limit locked rows in
      (
        dispatch_events now events (record { rows = rows; calls = []; dispatched = 0; failed = 0 }),
        length events,
      )
