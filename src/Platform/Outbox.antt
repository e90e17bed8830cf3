-- ===== src/Platform/Outbox.antt =====
-- internal/platform/messaging/outbox/dispatcher.go: the relay of outbox rows to a sink. The table
-- is a list in the order of its ids, instants and durations are nanoseconds, and what answers
-- from outside (the sink, the database, the clock) is a record of functions on a state of theirs.
pub mod Pass
pub mod Relay
pub mod Touch
pub mod Settling
pub mod Delivery
pub mod Heads
pub mod Passing
pub mod InOrder
mod Tests
use binno_pta_2026_evaluatio.Prelude.{
  ℕ, zero, suc, ◌+◌, ◌-◌, ◌*◌, ◌/◌, ◌^◌, Bool, true, false, not, ◌&&◌, ◌||◌, Option, none, some,
  List, [], ◌∷◌, ◌++◌, map, String, str_eq, ltb, leb, ◌==◌, if◌then◌else◌, length, count_rows,
  update_rows, select_rows, Result, ok, err,
}
use binno_pta_2026_evaluatio.Db.{Receipt}

-- A row of platform.outbox. The event's own columns (module, name, version, payload) are carried
-- to the sink unread, and are one field.
pub record Entry : Type 0 where
  pub id : ℕ
  pub event : String
  pub aggregate_id : String
  pub dispatched_at : Option ℕ
  pub claimed_at : Option ℕ
  pub next_attempt_at : Option ℕ
  pub attempt_count : ℕ
  pub dead_lettered_at : Option ℕ
  pub last_error : Option String

-- `Record`: a claimed row as the sink gets it.
pub record Record : Type 0 where
  pub id : ℕ
  pub event : String
  pub aggregate_id : String
  pub attempt_count : ℕ

-- `DispatcherConfig`, without the metrics' registry.
pub record DispatcherConfig : Type 0 where
  pub batch_size : ℕ
  pub claim_ttl : ℕ
  pub max_attempts : ℕ
  pub retry_base : ℕ
  pub retention : ℕ
  pub receipt_retention : ℕ
  pub sink_retention : ℕ
  pub metrics_interval : ℕ
  pub cleanup_batch : ℕ

-- How a `Sink` answers: delivered, an error to retry, or a `PermanentSinkError`.
pub data Reply : Type 0 where
  delivered : Reply
  transient permanent : String → Reply

-- The sink, whether a statement fails and how, the clock, and `message[:2000]`.
pub record Outside (W : Type 0) : Type 0 where
  pub send : List Record → W → Reply × W
  pub exec : W → Option String × W
  pub now : W → ℕ × W
  pub cut : String → String
  -- `Prune` of a sink that is a `Pruner`, up to an age and a number.
  pub prune : Option (ℕ → ℕ → W → W)

-- The leaves of a joined error.
pub data Failure : Type 0 where
  -- The sink's error for a batch, and for one record.
  refused : String → Failure
  isolated : ℕ → String → Failure
  -- A statement's error: marking a batch, or recording the failure of one record.
  unmarked : String → Failure
  unrecorded : ℕ → String → Failure

-- The two tables, the dispatcher's gauges with the time of their next refresh, and the outside.
pub record State (W : Type 0) : Type 0 where
  pub entries : List Entry
  pub receipts : List Receipt
  pub next_metrics_at : ℕ
  pub pending : ℕ
  pub dead_letters : ℕ
  pub world : W

abbrev pub second : ℕ
second = 1000000000

abbrev pub max_delay : ℕ
max_delay = 3600 * second

-- The defaults of `NewDispatcher`; a setting below zero is 0 here, which the source treats alike.
unfoldable pub with_defaults : DispatcherConfig → DispatcherConfig
with_defaults cfg = record cfg {
  max_attempts = if ltb cfg.max_attempts 1 then 1 else cfg.max_attempts;
  retry_base = if cfg.retry_base == 0 then second else cfg.retry_base;
  retention = if cfg.retention == 0 then 7 * 24 * 3600 * second else cfg.retention;
  receipt_retention =
      if cfg.receipt_retention == 0 then 48 * 3600 * second else cfg.receipt_retention;
  cleanup_batch = if cfg.cleanup_batch == 0 then 1000 else cfg.cleanup_batch;
  metrics_interval = if ltb cfg.metrics_interval second then 30 * second else cfg.metrics_interval;
}

-- `retryDelay`; the product stays an int64 for a base below 2 ^ 53.
unfoldable pub retry_delay : ℕ → ℕ → ℕ
retry_delay base attempt =
    let exponent = if ltb 10 (attempt - 1) then 10 else attempt - 1 in
    let delay = base * 2 ^ exponent in if ltb max_delay delay then max_delay else delay

abbrev pub has_id : ℕ → List Record → Bool
has_id id [] = false
has_id id (r ∷ rs) = (r.id == id) || has_id id rs

-- The columns that the two updates set.
abbrev pub mark : ℕ → Entry → Entry
mark at e = record e { dispatched_at = some at }

abbrev pub fail_entry : DispatcherConfig → Record → ℕ → String → Entry → Entry
fail_entry cfg r at message e =
    let attempts = r.attempt_count + 1 in
    let dead_letter = leb cfg.max_attempts attempts in
    record e {
      attempt_count = attempts;
      last_error = some message;
      claimed_at = none;
      next_attempt_at =
          if dead_letter
          then none
          else some (at + retry_delay cfg.retry_base attempts / 1000000 * 1000000);
      dead_lettered_at = if dead_letter then some at else none;
    }

-- What a statement leaves: its effect, or nothing where it failed.
abbrev pub unless_failed {ℓ} : {A : Type ℓ} → Option String → A → A → A
unless_failed none changed same = changed
unless_failed (some m) changed same = same

failures_of : ℕ → Option String → List Failure
failures_of id none = []
failures_of id (some m) = unrecorded id m ∷ []

-- The number relayed, and the joined errors: none at all is nil.
abbrev pub Outcome : Type 0
Outcome = ℕ × List Failure

marked : ℕ → Option String → Outcome
marked n none = (n, [])
marked n (some m) = (0, unmarked m ∷ [])

isolation : ℕ → String → Option String → Outcome
isolation id m none = (0, isolated id m ∷ [])
isolation id m (some e) = (0, refused m ∷ unrecorded id e ∷ [])

-- `batch[:n]` and `batch[n:]`.
abbrev pub take : ℕ → List Record → List Record
take n [] = []
take zero (r ∷ rs) = []
take (suc n) (r ∷ rs) = r ∷ take n rs

abbrev pub drop : ℕ → List Record → List Record
drop n [] = []
drop zero (r ∷ rs) = r ∷ rs
drop (suc n) (r ∷ rs) = drop n rs

-- `relay` with the world's state.
abbrev pub Relay : Type 0 → Type 0
Relay W = List Record → State W → Option (Outcome × State W)

module _ {W : Type 0} where
  -- One statement: its error, and the table after it.
  unfoldable pub exec : Outside W → (List Entry → List Entry) → State W → Option String × State W
  exec out change s =
      let (e, w) = out.exec s.world in
      (e, record s { entries = unless_failed e (change s.entries) s.entries; world = w })

  unfoldable pub read_clock : Outside W → State W → ℕ × State W
  read_clock out s = let (t, w) = out.now s.world in (t, record s { world = w })

  -- `markDispatched`.
  unfoldable pub mark_dispatched : Outside W → List Record → State W → Option String × State W
  unfolding read_clock
  mark_dispatched out batch s =
      let (t, s') = read_clock out s in exec out (update_rows (λ e. has_id e.id batch) (mark t)) s'

  -- `recordFailure`.
  unfoldable pub record_failure :
      Outside W → DispatcherConfig → Record → String → State W → Option String × State W
  unfolding read_clock
  record_failure out cfg r message s =
      let (t, s') = read_clock out s in
      exec out (update_rows (λ e. r.id == e.id) (fail_entry cfg r t (out.cut message))) s'

  -- `recordBatchFailure`.
  unfoldable pub record_batch_failure :
      Outside W → DispatcherConfig → List Record → String → State W → List Failure × State W
  unfolding failures_of
  record_batch_failure out cfg [] message s = ([], s)
  record_batch_failure out cfg (r ∷ rs) message s =
      let (e, s1) = record_failure out cfg r message s in
      let (es, s2) = record_batch_failure out cfg rs message s1 in (failures_of r.id e ++ es, s2)

  -- The three ways in which `relay` is done with a batch.
  unfoldable pub relay_delivered : Outside W → List Record → State W → Outcome × State W
  unfolding marked
  relay_delivered out batch s =
      let (e, s') = mark_dispatched out batch s in (marked (length batch) e, s')

  unfoldable pub relay_transient :
      Outside W → DispatcherConfig → List Record → String → State W → Outcome × State W
  relay_transient out cfg batch m s =
      let (es, s') = record_batch_failure out cfg batch m s in ((0, refused m ∷ es), s')

  unfoldable pub relay_isolated :
      Outside W → DispatcherConfig → Record → String → State W → Outcome × State W
  unfolding isolation
  relay_isolated out cfg r m s =
      let (e, s') = record_failure out cfg r m s in (isolation r.id m e, s')

  -- What `relay` does of a batch that is split, with the call that it makes of itself.
  unfoldable pub relay_halves : Relay W → List Record → State W → Option (Outcome × State W)
  relay_halves rec batch s =
      let middle = length batch / 2 in
      elim (rec (take middle batch) s) [
        | none ↦ none
        | some (l, s1) ↦ elim (rec (drop middle batch) s1) [
          | none ↦ none
          | some (r, s2) ↦ some ((l.0 + r.0, l.1 ++ r.1), s2)
        ]
      ]

  unfoldable pub relay_permanent :
      Outside W
      → DispatcherConfig
      → Relay W
      → List Record
      → String
      → State W
      → Option (Outcome × State W)
  relay_permanent out cfg rec (r ∷ []) m s = some (relay_isolated out cfg r m s)
  relay_permanent out cfg rec batch m s = relay_halves rec batch s

  unfoldable pub relay_reply :
      Outside W
      → DispatcherConfig
      → Relay W
      → List Record
      → Reply × W
      → State W
      → Option (Outcome × State W)
  relay_reply out cfg rec batch (delivered, w) s =
      some (relay_delivered out batch (record s { world = w }))
  relay_reply out cfg rec batch (transient m, w) s =
      some (relay_transient out cfg batch m (record s { world = w }))
  relay_reply out cfg rec batch (permanent m, w) s =
      relay_permanent out cfg rec batch m (record s { world = w })

  -- `relay`, on fuel: `none` means that it did not return.
  unfoldable pub relay :
      Outside W → DispatcherConfig → ℕ → List Record → State W → Option (Outcome × State W)
  relay out cfg zero batch s = none
  relay out cfg (suc fuel) batch s =
      relay_reply out cfg (relay out cfg fuel) batch (out.send batch s.world) s
