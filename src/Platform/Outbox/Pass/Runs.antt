-- ===== src/Platform/Outbox/Pass/Runs.antt =====
-- `RunOnce` of dispatcher.go returns, and keeps the events of an aggregate in order.
use binno_pta_2026_evaluatio.Prelude.{
  ℕ, zero, suc, ◌-◌, ◌≡◌, refl, sym, subst, Option, none, some, List, [], ◌∷◌, String, Bool-cases,
  inl, inr, length, Result, ok, err, arith, ltb, ◌==◌,
}
use binno_pta_2026_evaluatio.Platform.Outbox.{
  Record, Entry, DispatcherConfig, Outside, State, Outcome, exec, unless_failed, read_clock,
}
use binno_pta_2026_evaluatio.Platform.Outbox.Pass.{
  claimed_rows, lease_rows, prune_rows, claim, cleanup, observe_pending, run_once, prune_one,
  claim_rows, commit_claim, run_claimed, exec_receipts, prune_with, end_claim, begin_claim,
  count_pending, oldest, has_stamp,
}
use binno_pta_2026_evaluatio.Platform.Outbox.Heads.{Heads, claimed_rows-Heads}
use binno_pta_2026_evaluatio.Platform.Outbox.Passing.{relay-Spares}
use binno_pta_2026_evaluatio.Platform.Outbox.InOrder.{
  IsInOrder, relay-IsInOrder, remove_first-IsInOrder, lease_rows-IsInOrder, lease_rows-Heads,
}

prune_rows-IsInOrder :
    (stamp : Entry → Option ℕ) (cutoff n : ℕ) (es : List Entry)
    → IsInOrder es
    → IsInOrder (prune_rows stamp cutoff n es)
unfolding prune_rows
prune_rows-IsInOrder stamp cutoff zero es i = i
prune_rows-IsInOrder stamp cutoff (suc n) es i =
    prune_rows-IsInOrder stamp cutoff n (prune_one stamp es (oldest stamp cutoff es))
      (one (oldest stamp cutoff es))
  where
    one : (o : Option ℕ) → IsInOrder (prune_one stamp es o)
    one none = i
    one (some t) = remove_first-IsInOrder (λ x. has_stamp t (stamp x)) es i

unless_failed-IsInOrder :
    (o : Option String) (a b : List Entry)
    → IsInOrder a
    → IsInOrder b
    → IsInOrder (unless_failed o a b)
unless_failed-IsInOrder none a b i j = i
unless_failed-IsInOrder (some m) a b i j = j

module _ {W : Type 0} (out : Outside W) (cfg : DispatcherConfig) where
  -- A claim in hand: the rows claimed are the first pending ones of their aggregates.
  abbrev Held : Result String (List Record) × State W → Type 0
  Held (ok batch, s) = IsInOrder s.entries × Heads batch s.entries s.entries
  Held (err m, s) = IsInOrder s.entries

  commit_claim-Held :
      (before after : State W) (batch : List Record) (reply : Option String × W)
      → IsInOrder before.entries
      → IsInOrder after.entries
      → Heads batch after.entries after.entries
      → Held (commit_claim out before after batch reply)
  unfolding commit_claim
  commit_claim-Held before after batch (none, w) i j h = (j, h)
  commit_claim-Held before after batch (some m, w) i j h = i

  claim_rows-Held : (s : State W) → IsInOrder s.entries → Held (claim_rows out cfg s)
  unfolding claim_rows exec read_clock
  claim_rows-Held s i =
      let (now, s1) = read_clock out s in
      let (now', s2) = read_clock out s1 in
      let batch = claimed_rows now (now' - cfg.claim_ttl) cfg.batch_size s.entries in
      let (e, w) = out.exec s2.world in
      go s2 now batch e w i
        (claimed_rows-Heads now (now' - cfg.claim_ttl) cfg.batch_size s.entries i.keyed)
    where
      go :
          (s2 : State W) (now : ℕ) (batch : List Record) (e : Option String) (w : W)
          → IsInOrder s2.entries
          → Heads batch s2.entries s2.entries
          → Held (
              end_claim out s2
                (record s2 {
                  entries = unless_failed e (lease_rows now batch s2.entries) s2.entries;
                  world = w;
                })
                batch
                e)
      go s2 now batch none w j h =
          commit_claim-Held s2 (record s2 { entries = lease_rows now batch s2.entries; world = w })
            batch (out.exec w) j (lease_rows-IsInOrder now batch s2.entries j)
            (lease_rows-Heads now batch s2.entries h)
      go s2 now batch (some m) w j h = j

  begin_claim-Held :
      (s : State W) (e : Option String) → IsInOrder s.entries → Held (begin_claim out cfg s e)
  unfolding begin_claim
  begin_claim-Held s none i = claim_rows-Held s i
  begin_claim-Held s (some m) i = i

  claim-Held : (s : State W) → IsInOrder s.entries → Held (claim out cfg s)
  unfolding claim
  claim-Held s i =
      begin_claim-Held (record s { world = (out.exec s.world).1 }) (out.exec s.world).0 i

  prune_with-entries :
      (s : State W) (p : Option (ℕ → ℕ → W → W)) → (prune_with out cfg s p).entries ≡ s.entries
  unfolding prune_with read_clock
  prune_with-entries s none = refl
  prune_with-entries s (some prune) = elim (Bool-cases (cfg.sink_retention == 0)) [
    | inl never ↦ rw never refl
    | inr sometimes ↦ rw sometimes refl
  ]

  cleanup-IsInOrder : (s : State W) → IsInOrder s.entries → IsInOrder (cleanup out cfg s).entries
  unfolding cleanup exec exec_receipts read_clock
  cleanup-IsInOrder s i = subst IsInOrder (sym (prune_with-entries _ out.prune)) (
      unless_failed-IsInOrder (out.exec (out.now s.world).1).0 _ s.entries
        (prune_rows-IsInOrder (λ e. e.dispatched_at) ((out.now s.world).0 - cfg.retention)
          cfg.cleanup_batch s.entries i)
        i)

  count_pending-entries :
      (s : State W) (e : Option String) → (count_pending s e).entries ≡ s.entries
  unfolding count_pending
  count_pending-entries s none = refl
  count_pending-entries s (some m) = refl

  observe_pending-entries : (s : State W) → (observe_pending out cfg s).entries ≡ s.entries
  unfolding observe_pending read_clock
  observe_pending-entries s =
      let (now, w) = out.now s.world in
      elim (Bool-cases (ltb now s.next_metrics_at)) [
        | inl early ↦ rw early refl
        | inr due ↦ rw due (count_pending-entries _ _)
      ]

  tidy-IsInOrder :
      (s : State W)
      → IsInOrder s.entries
      → IsInOrder (observe_pending out cfg (cleanup out cfg s)).entries
  tidy-IsInOrder s i =
      subst IsInOrder (sym (observe_pending-entries (cleanup out cfg s))) (cleanup-IsInOrder s i)

  -- A pass that returns with the table in order.
  abbrev Ordered : Option (Result String Outcome × State W) → Type 0
  Ordered result =
      (r : Result String Outcome) × (s' : State W) × (result ≡ some (r, s')) × IsInOrder s'.entries

  run_claimed-Ordered :
      (c : Result String (List Record) × State W) → Held c → Ordered (run_claimed out cfg c)
  unfolding run_claimed
  run_claimed-Ordered (err m, s) i = (err m, s, refl, i)
  run_claimed-Ordered (ok [], s) (i, _) =
      (ok (0, []), observe_pending out cfg (cleanup out cfg s), refl, tidy-IsInOrder s i)
  run_claimed-Ordered (ok (r ∷ rs), s) (i, heads) =
      let batch = r ∷ rs in
      let (o, s', e, p) = relay-Spares out cfg (length batch) batch s (omega arith) (omega arith) in
      (
        ok o,
        observe_pending out cfg (cleanup out cfg s'),
        rw e refl,
        tidy-IsInOrder s' (relay-IsInOrder batch s.entries s'.entries heads p i),
      )

  run_once-Ordered : (s : State W) → IsInOrder s.entries → Ordered (run_once out cfg s)
  unfolding run_once
  run_once-Ordered s i = run_claimed-Ordered (claim out cfg s) (claim-Held s i)

-- A pass of the dispatcher always returns, whatever the sink and the database answer and the
-- clock shows, and keeps a table in order: its ids are a key, and each row that is dispatched has
-- the earlier rows of its aggregate dispatched or given up. No other dispatcher runs meanwhile.
pub run_once-IsInOrder :
    {W : Type 0} (out : Outside W) (cfg : DispatcherConfig) (s : State W)
    → IsInOrder s.entries
    → (r : Result String Outcome) × (s' : State W) × (run_once out cfg s ≡ some (r, s'))
      × IsInOrder s'.entries
run_once-IsInOrder out cfg s i = run_once-Ordered out cfg s i
