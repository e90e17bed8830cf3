-- ===== src/Platform/Outbox/Settling.antt =====
-- `relay` of dispatcher.go returns, and settles each row of its batch.
use binno_pta_2026_evaluatio.Prelude.{
  ℕ, ◌+◌, ◌≡◌, refl, sym, ap, none, List, [], ◌∷◌, ◌++◌, String, ◌==◌, length, All, update_rows,
  subst, ◌≤◌, ◌<◌,
}
use binno_pta_2026_evaluatio.Platform.Outbox.{
  Record, Entry, DispatcherConfig, Outside, State, Outcome, Failure, refused, isolated, delivered,
  transient, permanent, has_id, mark, fail_entry, exec, mark_dispatched, record_failure,
  record_batch_failure, relay_delivered, relay_transient, relay_isolated, relay, unless_failed,
}
use binno_pta_2026_evaluatio.Platform.Outbox.Relay.{Effect, Joins, Returns, relay_rule}
use binno_pta_2026_evaluatio.Platform.Outbox.Touch.{
  Pairs, IsDistinct, Touch, Pairs-self, Pairs-join, Pairs-update, Touch-mark, Touch-fail,
  IsDistinct-left, IsDistinct-right,
}

-- Every statement goes through.
abbrev pub Serves : {W : Type 0} → Outside W → Type 0
Serves {W} out = (w : W) → (out.exec w).0 ≡ none

module _ {W : Type 0} (out : Outside W) (serves : Serves out) where
  exec_lem :
      (change : List Entry → List Entry) (s : State W)
      → ((exec out change s).0 ≡ none) × ((exec out change s).1.entries ≡ change s.entries)
  unfolding exec
  exec_lem change s =
      (serves s.world, ap (λ e. unless_failed e (change s.entries) s.entries) (serves s.world))

  mark_dispatched_lem :
      (batch : List Record) (s : State W)
      → (t : ℕ) × ((mark_dispatched out batch s).0 ≡ none)
        × ((mark_dispatched out batch s).1.entries
            ≡ update_rows (λ e. has_id e.id batch) (mark t) s.entries)
  unfolding mark_dispatched
  mark_dispatched_lem batch s =
      let (t, w) = out.now s.world in
      let (p, q) =
        exec_lem (update_rows (λ e. has_id e.id batch) (mark t)) (record s { world = w }) in
      (t, p, q)

  record_failure_lem :
      (cfg : DispatcherConfig) (r : Record) (m : String) (s : State W)
      → (t : ℕ) × ((record_failure out cfg r m s).0 ≡ none)
        × ((record_failure out cfg r m s).1.entries
            ≡ update_rows (λ e. r.id == e.id) (fail_entry cfg r t (out.cut m)) s.entries)
  unfolding record_failure
  record_failure_lem cfg r m s =
      let (t, w) = out.now s.world in
      let (p, q) =
        exec_lem (update_rows (λ e. r.id == e.id) (fail_entry cfg r t (out.cut m)))
          (record s { world = w }) in
      (t, p, q)

module _ {W : Type 0} (out : Outside W) (serves : Serves out) (cfg : DispatcherConfig)
    (V : Record → Entry → Entry → Type 0)
    (same : (r : Record) (e e' : Entry) → V r e e' → e'.id ≡ e.id) where
  -- Failing at any time, with any message, is `V`.
  abbrev Fails : Record → Type 0
  Fails r = (e : Entry) (t : ℕ) (m : String) → V r e (fail_entry cfg r t m e)

  record_failure-Touch :
      (r : Record) (m : String) (s : State W)
      → Fails r
      → Pairs (Touch V (r ∷ [])) s.entries (record_failure out cfg r m s).1.entries
  record_failure-Touch r m s v =
      let (t, p, q) = record_failure_lem out serves cfg r m s in
      subst (λ es. Pairs (Touch V (r ∷ [])) s.entries es) (sym q)
        (Pairs-update V (r ∷ []) (λ e. r.id == e.id) (fail_entry cfg r t (out.cut m))
          (Touch-fail V r (fail_entry cfg r t (out.cut m)) (λ e. v e t (out.cut m))) s.entries)

  mark_dispatched-Touch :
      (batch : List Record) (s : State W)
      → All (λ r. (e : Entry) (t : ℕ) → V r e (mark t e)) batch
      → Pairs (Touch V batch) s.entries (mark_dispatched out batch s).1.entries
  mark_dispatched-Touch batch s v =
      let (t, p, q) = mark_dispatched_lem out serves batch s in
      subst (λ es. Pairs (Touch V batch) s.entries es) (sym q)
        (Pairs-update V batch (λ e. has_id e.id batch) (mark t) (Touch-mark V t batch v) s.entries)

  record_batch_failure-Touch :
      (batch : List Record) (m : String) (s : State W)
      → IsDistinct batch
      → All Fails batch
      → Pairs (Touch V batch) s.entries (record_batch_failure out cfg batch m s).1.entries
  unfolding record_batch_failure
  record_batch_failure-Touch [] m s h v = Pairs-self V [] (λ e. refl) s.entries
  record_batch_failure-Touch (r ∷ rs) m s h v =
      let s1 = (record_failure out cfg r m s).1 in
      Pairs-join V same (r ∷ []) rs s.entries s1.entries
        (record_batch_failure out cfg rs m s1).1.entries h (record_failure-Touch r m s v.0)
        (record_batch_failure-Touch rs m s1 h.1 v.1)

-- What a sink's replies justify of the rows that are then marked or failed, and of the outcome.
pub record Judges {W : Type 0} (out : Outside W) (cfg : DispatcherConfig)
    (V : Record → Entry → Entry → Type 0) (Q : List Record → Outcome → Type 0) : Type 0 where
  pub same_id : (r : Record) (e e' : Entry) → V r e e' → e'.id ≡ e.id
  pub on_delivery :
      (batch : List Record) (w w' : W)
      → out.send batch w ≡ (delivered, w')
      → All (λ r. (e : Entry) (t : ℕ) → V r e (mark t e)) batch × Q batch (length batch, [])
  pub on_retry :
      (batch : List Record) (m : String) (w w' : W)
      → out.send batch w ≡ (transient m, w')
      → All (λ r. (e : Entry) (t : ℕ) (k : String) → V r e (fail_entry cfg r t k e)) batch
        × ((es : List Failure) → Q batch (0, refused m ∷ es))
  pub on_rejection :
      (x : Record) (m : String) (w w' : W)
      → out.send (x ∷ []) w ≡ (permanent m, w')
      → ((e : Entry) (t : ℕ) (k : String) → V x e (fail_entry cfg x t k e))
        × Q (x ∷ []) (0, isolated x.id m ∷ [])
  pub on_join :
      (xs ys : List Record) (o o' : Outcome)
      → Q xs o
      → Q ys o'
      → Q (xs ++ ys) (o.0 + o'.0, o.1 ++ o'.1)

-- The batch has its rows settled by `V`, and the outcome is as `Q` says.
abbrev pub Settles : (Record → Entry → Entry → Type 0) → (List Record → Outcome → Type 0) → Effect
Settles V Q batch es o es' = IsDistinct batch → Pairs (Touch V batch) es es' × Q batch o

module _ {W : Type 0} (out : Outside W) (serves : Serves out) (cfg : DispatcherConfig)
    (V : Record → Entry → Entry → Type 0) (Q : List Record → Outcome → Type 0)
    (j : Judges out cfg V Q) where
  relay_delivered-Settles :
      (batch : List Record) (s : State W) (w : W)
      → out.send batch s.world ≡ (delivered, w)
      → Settles V Q batch s.entries
          (relay_delivered out batch (record s { world = w })).0
          (relay_delivered out batch (record s { world = w })).1.entries
  unfolding relay_delivered
  relay_delivered-Settles batch s w e h =
      let (v, q) = j.on_delivery batch s.world w e in
      let s' = record s { world = w } in
      let (t, p, _) = mark_dispatched_lem out serves batch s' in
      (mark_dispatched-Touch out serves cfg V j.same_id batch s' v, rw p q)

  relay_transient-Settles :
      (batch : List Record) (s : State W) (m : String) (w : W)
      → out.send batch s.world ≡ (transient m, w)
      → Settles V Q batch s.entries
          (relay_transient out cfg batch m (record s { world = w })).0
          (relay_transient out cfg batch m (record s { world = w })).1.entries
  unfolding relay_transient
  relay_transient-Settles batch s m w e h =
      let (v, q) = j.on_retry batch m s.world w e in
      let s' = record s { world = w } in
      (
        record_batch_failure-Touch out serves cfg V j.same_id batch m s' h v,
        q (record_batch_failure out cfg batch m s').0,
      )

  relay_isolated-Settles :
      (x : Record) (s : State W) (m : String) (w : W)
      → out.send (x ∷ []) s.world ≡ (permanent m, w)
      → Settles V Q
          (x ∷ [])
          s.entries
          (relay_isolated out cfg x m (record s { world = w })).0
          (relay_isolated out cfg x m (record s { world = w })).1.entries
  unfolding relay_isolated
  relay_isolated-Settles x s m w e h =
      let (v, q) = j.on_rejection x m s.world w e in
      let s' = record s { world = w } in
      let (t, p, _) = record_failure_lem out serves cfg x m s' in
      (record_failure-Touch out serves cfg V j.same_id x m s' v, rw p q)

  Settles-Joins : Joins (Settles V Q)
  Settles-Joins xs ys s s1 s2 o1 o2 p q h =
      let (a, b) = p (IsDistinct-left xs ys h) in
      let (c, d) = q (IsDistinct-right xs ys h) in
      (Pairs-join V j.same_id xs ys s s1 s2 h a c, j.on_join xs ys o1 o2 b d)

  pub relay-Settles :
      (fuel : ℕ) (batch : List Record) (s : State W)
      → 0 < length batch
      → length batch ≤ fuel
      → Returns (Settles V Q) (relay out cfg fuel batch s) batch s.entries
  relay-Settles = relay_rule out cfg (Settles V Q) (record {
    delivers = relay_delivered-Settles;
    retries = relay_transient-Settles;
    isolates = relay_isolated-Settles;
    joins = Settles-Joins;
  })
