-- ===== src/Platform/Outbox/Pass.antt =====
-- One pass of the dispatcher of dispatcher.go: claim, relay, retention and gauges.
pub mod Runs
use binno_pta_2026_evaluatio.Prelude.{
  ℕ, zero, suc, ◌+◌, ◌-◌, Bool, true, false, not, ◌&&◌, ◌||◌, Option, none, some, List, [], ◌∷◌,
  map, String, str_eq, ltb, leb, ◌==◌, if◌then◌else◌, length, count_rows, update_rows, select_rows,
  Result, ok, err,
}
use binno_pta_2026_evaluatio.Db.{Receipt}
use binno_pta_2026_evaluatio.Platform.Outbox.{
  Record, Entry, DispatcherConfig, Outside, State, Outcome, Failure, has_id, read_clock, exec,
  unless_failed, relay,
}

abbrev pub is_none : Option ℕ → Bool
is_none none = true
is_none (some _) = false

-- Neither dispatched nor given up.
abbrev pub is_pending : Entry → Bool
is_pending e = is_none e.dispatched_at && is_none e.dead_lettered_at

abbrev pub is_due : ℕ → Option ℕ → Bool
is_due now none = true
is_due now (some at) = leb at now

abbrev pub is_free : ℕ → Option ℕ → Bool
is_free lease none = true
is_free lease (some at) = ltb at lease

-- A pending row of the same aggregate that comes before `e`.
abbrev pub is_prior : Entry → Entry → Bool
is_prior e p = str_eq p.aggregate_id e.aggregate_id && (ltb p.id e.id && is_pending p)

abbrev pub has_prior : Entry → List Entry → Bool
has_prior e [] = false
has_prior e (p ∷ ps) = is_prior e p || has_prior e ps

-- The condition of the claim's query.
abbrev pub is_claimable : ℕ → ℕ → List Entry → Entry → Bool
is_claimable now lease entries e =
    is_pending e
    && (is_due now e.next_attempt_at && (is_free lease e.claimed_at && not (has_prior e entries)))

abbrev pub limit : ℕ → List Entry → List Entry
limit n [] = []
limit zero (e ∷ es) = []
limit (suc n) (e ∷ es) = e ∷ limit n es

abbrev pub to_record : Entry → Record
to_record e = record {
  id = e.id;
  event = e.event;
  aggregate_id = e.aggregate_id;
  attempt_count = e.attempt_count;
}

-- The rows that the query locks and returns: no other transaction holds rows while it runs.
abbrev pub claimed_rows : ℕ → ℕ → ℕ → List Entry → List Record
claimed_rows now lease size entries =
    map to_record (limit size (select_rows (is_claimable now lease entries) entries))

abbrev pub lease_rows : ℕ → List Record → List Entry → List Entry
lease_rows now batch =
    update_rows (λ e. has_id e.id batch) (λ e. record e { claimed_at = some now })

-- `pruned` of the oldest rows whose stamp is before the cutoff; of rows with one stamp, which goes
-- first is open to the database, and here it is the first.
abbrev oldest {ℓ} : {A : Type ℓ} → (A → Option ℕ) → ℕ → List A → Option ℕ
oldest stamp cutoff [] = none
oldest stamp cutoff (x ∷ xs) = elim (stamp x) [
  | none ↦ oldest stamp cutoff xs
  | some t ↦
      if ltb t cutoff
      then (elim (oldest stamp cutoff xs) [
        | none ↦ some t
        | some u ↦ some (if ltb u t then u else t)
      ])
      else oldest stamp cutoff xs
]

abbrev pub has_stamp : ℕ → Option ℕ → Bool
has_stamp t none = false
has_stamp t (some u) = u == t

abbrev pub remove_first {ℓ} : {A : Type ℓ} → (A → Bool) → List A → List A
remove_first p [] = []
remove_first p (x ∷ xs) = if p x then xs else x ∷ remove_first p xs

prune_one {ℓ} : {A : Type ℓ} → (A → Option ℕ) → List A → Option ℕ → List A
prune_one stamp rows none = rows
prune_one stamp rows (some t) = remove_first (λ x. has_stamp t (stamp x)) rows

unfoldable pub prune_rows {ℓ} : {A : Type ℓ} → (A → Option ℕ) → ℕ → ℕ → List A → List A
unfolding prune_one
prune_rows stamp cutoff zero rows = rows
prune_rows stamp cutoff (suc n) rows =
    prune_rows stamp cutoff n (prune_one stamp rows (oldest stamp cutoff rows))

module _ {W : Type 0} where
  -- A statement on the receipts, and one that only reads.
  exec_receipts : Outside W → (List Receipt → List Receipt) → State W → Option String × State W
  exec_receipts out change s =
      let (e, w) = out.exec s.world in
      (e, record s { receipts = unless_failed e (change s.receipts) s.receipts; world = w })

  commit_claim :
      Outside W
      → State W
      → State W
      → List Record
      → Option String × W
      → Result String (List Record) × State W
  commit_claim out before after batch (none, w) = (ok batch, record after { world = w })
  commit_claim out before after batch (some m, w) = (err m, record before { world = w })

  end_claim :
      Outside W
      → State W
      → State W
      → List Record
      → Option String
      → Result String (List Record) × State W
  unfolding commit_claim
  end_claim out before after batch none = commit_claim out before after batch (out.exec after.world)
  end_claim out before after batch (some m) = (err m, after)

  -- The query and the commit of `claim`. The clock is read twice.
  claim_rows : Outside W → DispatcherConfig → State W → Result String (List Record) × State W
  unfolding end_claim
  claim_rows out cfg s =
      let (now, s1) = read_clock out s in
      let (now', s2) = read_clock out s1 in
      let batch = claimed_rows now (now' - cfg.claim_ttl) cfg.batch_size s.entries in
      let (e, s3) = exec out (lease_rows now batch) s2 in end_claim out s2 s3 batch e

  begin_claim :
      Outside W → DispatcherConfig → State W → Option String → Result String (List Record) × State W
  unfolding claim_rows
  begin_claim out cfg s none = claim_rows out cfg s
  begin_claim out cfg s (some m) = (err m, s)

  -- `claim`: beginning the transaction may fail too.
  unfoldable pub claim :
      Outside W → DispatcherConfig → State W → Result String (List Record) × State W
  unfolding begin_claim
  claim out cfg s = let (e, w) = out.exec s.world in begin_claim out cfg (record s { world = w }) e

  prune_with : Outside W → DispatcherConfig → State W → Option (ℕ → ℕ → W → W) → State W
  prune_with out cfg s none = s
  prune_with out cfg s (some prune) =
      if cfg.sink_retention == 0
      then s
      else let (now, s') = read_clock out s in
        record s' { world = prune (now - cfg.sink_retention) cfg.cleanup_batch s'.world }

  -- `cleanup`; its errors are only logged.
  unfoldable pub cleanup : Outside W → DispatcherConfig → State W → State W
  unfolding exec_receipts prune_with
  cleanup out cfg s =
      let (now, s1) = read_clock out s in
      let (_, s2) =
        exec out (prune_rows (λ e. e.dispatched_at) (now - cfg.retention) cfg.cleanup_batch) s1 in
      let (now', s3) = read_clock out s2 in
      let (_, s4) =
        exec_receipts out
          (prune_rows (λ r. some r.created_at) (now' - cfg.receipt_retention) cfg.cleanup_batch)
          s3 in
      prune_with out cfg s4 out.prune

  count_pending : State W → Option String → State W
  count_pending s (some m) = s
  count_pending s none = record s {
    pending = count_rows is_pending s.entries;
    dead_letters = count_rows (λ e. not (is_none e.dead_lettered_at)) s.entries;
  }

  -- `observePending`.
  unfoldable pub observe_pending : Outside W → DispatcherConfig → State W → State W
  unfolding count_pending
  observe_pending out cfg s =
      let (now, s1) = read_clock out s in
      if ltb now s1.next_metrics_at
      then s1
      else let (e, w) = out.exec s1.world in
        count_pending (record s1 { next_metrics_at = now + cfg.metrics_interval; world = w }) e

  finish :
      Outside W
      → DispatcherConfig
      → Option (Outcome × State W)
      → Option (Result String Outcome × State W)
  finish out cfg none = none
  finish out cfg (some (o, s)) = some (ok o, observe_pending out cfg (cleanup out cfg s))

  run_claimed :
      Outside W
      → DispatcherConfig
      → Result String (List Record) × State W
      → Option (Result String Outcome × State W)
  unfolding finish
  run_claimed out cfg (err m, s) = some (err m, s)
  run_claimed out cfg (ok [], s) = some (ok (0, []), observe_pending out cfg (cleanup out cfg s))
  run_claimed out cfg (ok (r ∷ rs), s) = finish out cfg (relay out cfg (length (r ∷ rs)) (r ∷ rs) s)

  -- `RunOnce`, with as much fuel for `relay` as the batch is long: the claim's error, or the
  -- number relayed with the relay's errors. `none` means that it did not return.
  unfoldable pub run_once :
      Outside W → DispatcherConfig → State W → Option (Result String Outcome × State W)
  unfolding run_claimed
  run_once out cfg s = run_claimed out cfg (claim out cfg s)
