-- ===== src/Platform/Outbox/Tests.antt =====
-- Witnesses for the outbox dispatcher: a table of three rows, and a sink that rejects record 2.
use binno_pta_2026_evaluatio.Prelude.{
  ℕ, suc, ◌≡◌, refl, Bool, true, false, none, some, List, [], ◌∷◌, String, ◌==◌, arith, Result, ok,
  ◌*◌,
}
use binno_pta_2026_evaluatio.Platform.Outbox.{
  Record, Entry, DispatcherConfig, Outside, State, Outcome, Reply, delivered, permanent, exec,
  retry_delay, relay,
}
use binno_pta_2026_evaluatio.Platform.Outbox.Touch.{Pairs, Touch}
use binno_pta_2026_evaluatio.Platform.Outbox.Delivery.{
  IsSettled, Counted, relay_terminates, any_poison, Rejects, IsSorted, Tally, relay-isolates,
}
use binno_pta_2026_evaluatio.Platform.Outbox.Pass.{claim, run_once}
use binno_pta_2026_evaluatio.Platform.Outbox.Pass.Runs.{run_once-IsInOrder}
use binno_pta_2026_evaluatio.Platform.Outbox.InOrder.{IsInOrder}

abbrev cfg : DispatcherConfig
cfg = record {
  batch_size = 10;
  claim_ttl = 5;
  max_attempts = 3;
  retry_base = 1000000;
  retention = 1000;
  receipt_retention = 1000;
  sink_retention = 0;
  metrics_interval = 10;
  cleanup_batch = 10;
}

abbrev is_second : Record → Bool
is_second r = r.id == 2

-- The world is the time, which passes at each reading.
abbrev answer : Bool → Reply
answer true = permanent "bad record"
answer false = delivered

abbrev outside : Outside ℕ
outside = record {
  send = λ batch w. (answer (any_poison is_second batch), w);
  exec = λ w. (none, w);
  now = λ w. (w, suc w);
  cut = λ m. m;
  prune = none;
}

abbrev entry : ℕ → String → Entry
entry id aggregate = record {
  id = id;
  event = "";
  aggregate_id = aggregate;
  dispatched_at = none;
  claimed_at = none;
  next_attempt_at = none;
  attempt_count = 0;
  dead_lettered_at = none;
  last_error = none;
}

abbrev claimed : ℕ → String → Record
claimed id aggregate = record { id = id; event = ""; aggregate_id = aggregate; attempt_count = 0 }

abbrev batch : List Record
batch = claimed 1 "a" ∷ claimed 2 "b" ∷ claimed 3 "c" ∷ []

abbrev table : State ℕ
table = record {
  entries = entry 1 "a" ∷ entry 2 "b" ∷ entry 3 "c" ∷ [];
  receipts = [];
  next_metrics_at = 0;
  pending = 0;
  dead_letters = 0;
  world = 100;
}

-- Two rows of one aggregate: the second waits for the first.
abbrev queue : State ℕ
queue = record table { entries = entry 1 "a" ∷ entry 3 "a" ∷ entry 4 "b" ∷ [] }

queue-claim : (claim outside cfg queue).0 ≡ ok (claimed 1 "a" ∷ claimed 4 "b" ∷ [])
unfolding claim exec
queue-claim = refl

retry_delay_tests :
    (retry_delay 1000 1 ≡ 1000)
    × (retry_delay 1000 4 ≡ 8000)
    × (retry_delay 1000 40 ≡ 1024000)
    × (retry_delay (3600 * 1000000000) 2 ≡ 3600 * 1000000000)
unfolding retry_delay
retry_delay_tests = (refl, refl, refl, refl)

relay_terminates_example :
    (o : Outcome) × (s' : State ℕ) × (relay outside cfg 3 batch table ≡ some (o, s'))
    × Pairs (Touch (IsSettled cfg) batch) table.entries s'.entries
    × Counted batch o
relay_terminates_example =
    relay_terminates outside cfg 3 batch table (λ w. refl) (refl, (refl, (refl, tt))) (omega arith)
      (omega arith)

sink-Rejects : Rejects outside is_second
sink-Rejects = record { accepts = λ b w h. rw h refl; rejects = λ b w h. ("bad record", rw h refl) }

relay-isolates_example :
    (o : Outcome) × (s' : State ℕ) × (relay outside cfg 3 batch table ≡ some (o, s'))
    × Pairs (Touch (IsSorted cfg is_second) batch) table.entries s'.entries
    × Tally is_second batch o
relay-isolates_example =
    relay-isolates outside cfg is_second 3 batch table (λ w. refl) sink-Rejects
      (refl, (refl, (refl, tt))) (omega arith) (omega arith)

queue-IsInOrder : IsInOrder queue.entries
queue-IsInOrder = record {
  keyed = omega arith;
  ordered = ((λ h. cc), ((λ h. cc), ((λ h. cc), tt)));
}

run_once-IsInOrder_example :
    (r : Result String Outcome) × (s' : State ℕ) × (run_once outside cfg queue ≡ some (r, s'))
    × IsInOrder s'.entries
run_once-IsInOrder_example = run_once-IsInOrder outside cfg queue queue-IsInOrder
