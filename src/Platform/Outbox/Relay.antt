-- ===== src/Platform/Outbox/Relay.antt =====
-- `relay` of dispatcher.go: one rule for its runs.
use binno_pta_2026_evaluatio.Prelude.{
  ℕ, zero, suc, ◌+◌, ◌/◌, ◌≤◌, ◌<◌, ◌≡◌, refl, subst, ap, some, List, [], ◌∷◌, ◌++◌, String, length,
  length-append, arith, Option,
}
use binno_pta_2026_evaluatio.Platform.Outbox.{
  Record, DispatcherConfig, Outside, Entry, State, Outcome, Reply, delivered, transient, permanent,
  take, drop, relay_delivered, relay_transient, relay_isolated, relay_halves, relay_permanent,
  relay_reply, relay,
}

take-append-drop : (n : ℕ) (xs : List Record) → take n xs ++ drop n xs ≡ xs
take-append-drop n [] = ground arith
take-append-drop zero (x ∷ xs) = refl
take-append-drop (suc n) (x ∷ xs) = ap (λ l. x ∷ l) (take-append-drop n xs)

length-take : (n : ℕ) (xs : List Record) → n ≤ length xs → length (take n xs) ≡ n
length-take n [] h = ground arith
length-take zero (x ∷ xs) h = refl
length-take (suc n) (x ∷ xs) h = omega (arith, length-take n xs)

length-halves : (n : ℕ) (xs : List Record) → length (take n xs) + length (drop n xs) ≡ length xs
length-halves n xs = omega (
  arith,
  length-append (take n xs) (drop n xs),
  ap (λ (l : List Record). length l) (take-append-drop n xs),
)

relay_halves_lem :
    {W : Type 0} (rec : List Record → State W → Option (Outcome × State W)) (batch : List Record)
    (s : State W) (l r : Outcome) (s1 s2 : State W)
    → rec (take (length batch / 2) batch) s ≡ some (l, s1)
    → rec (drop (length batch / 2) batch) s1 ≡ some (r, s2)
    → relay_halves rec batch s ≡ some ((l.0 + r.0, l.1 ++ r.1), s2)
unfolding relay_halves
relay_halves_lem rec batch s l r s1 s2 p q = rw (p, relay_halves) (rw (q, relay_halves) refl)

-- What a run does: the batch, the table, the outcome and the table after it.
abbrev pub Effect : Type 1
Effect = List Record → List Entry → Outcome → List Entry → Type 0

-- A run that returns, with what it does.
abbrev pub Returns :
    {W : Type 0} → Effect → Option (Outcome × State W) → List Record → List Entry → Type 0
Returns {W} P result batch es =
    (o : Outcome) × (s' : State W) × (result ≡ some (o, s')) × P batch es o s'.entries

-- What two parts in turn do is done to the whole.
abbrev pub Joins : Effect → Type 0
Joins P =
    (xs ys : List Record) (s s1 s2 : List Entry) (o1 o2 : Outcome)
    → P xs s o1 s1
    → P ys s1 o2 s2
    → P (xs ++ ys) s (o1.0 + o2.0, o1.1 ++ o2.1) s2

module _ {W : Type 0} (P : Effect) where
  -- The recursive calls on shorter batches do it.
  abbrev pub Shorter : (List Record → State W → Option (Outcome × State W)) → ℕ → Type 0
  Shorter rec n =
      (b : List Record) (s : State W)
      → 0 < length b
      → length b < n
      → Returns P (rec b s) b s.entries

  relay_halves_rule :
      (rec : List Record → State W → Option (Outcome × State W)) (batch : List Record) (s : State W)
      → Joins P
      → Shorter rec (length batch)
      → 2 ≤ length batch
      → Returns P (relay_halves rec batch s) batch s.entries
  relay_halves_rule rec batch s join ih two =
      let middle = length batch / 2 in
      let lt : length (take middle batch) ≡ middle = length-take middle batch (omega arith) in
      let lh : length (take middle batch) + length (drop middle batch) ≡ length batch =
        length-halves middle batch in
      let (l, s1, el, pl) = ih (take middle batch) s (omega arith) (omega arith) in
      let (r, s2, er, pr) = ih (drop middle batch) s1 (omega arith) (omega arith) in
      (
        (l.0 + r.0, l.1 ++ r.1),
        s2,
        relay_halves_lem rec batch s l r s1 s2 el er,
        subst (λ b. P b s.entries (l.0 + r.0, l.1 ++ r.1) s2.entries)
            (take-append-drop middle batch)
            (join (take middle batch) (drop middle batch) s.entries s1.entries s2.entries l r pl
              pr),
      )

-- The three ways in which `relay` is done with a batch, from the state that the sink leaves.
pub record Ends {W : Type 0} (out : Outside W) (cfg : DispatcherConfig) (P : Effect) : Type 0 where
  pub delivers :
      (batch : List Record) (s : State W) (w : W)
      → out.send batch s.world ≡ (delivered, w)
      → P batch s.entries
          (relay_delivered out batch (record s { world = w })).0
          (relay_delivered out batch (record s { world = w })).1.entries
  pub retries :
      (batch : List Record) (s : State W) (m : String) (w : W)
      → out.send batch s.world ≡ (transient m, w)
      → P batch s.entries
          (relay_transient out cfg batch m (record s { world = w })).0
          (relay_transient out cfg batch m (record s { world = w })).1.entries
  pub isolates :
      (x : Record) (s : State W) (m : String) (w : W)
      → out.send (x ∷ []) s.world ≡ (permanent m, w)
      → P
          (x ∷ [])
          s.entries
          (relay_isolated out cfg x m (record s { world = w })).0
          (relay_isolated out cfg x m (record s { world = w })).1.entries
  pub joins : Joins P

module _ {W : Type 0} (out : Outside W) (cfg : DispatcherConfig) (P : Effect)
    (ends : Ends out cfg P) where
  relay_permanent_rule :
      (rec : List Record → State W → Option (Outcome × State W)) (batch : List Record) (s : State W)
      (m : String) (w : W)
      → Shorter P rec (length batch)
      → 0 < length batch
      → out.send batch s.world ≡ (permanent m, w)
      → Returns P (relay_permanent out cfg rec batch m (record s { world = w })) batch s.entries
  unfolding relay_permanent
  relay_permanent_rule rec [] s m w ih h e = absurd (omega arith)
  relay_permanent_rule rec (x ∷ []) s m w ih h e =
      let r = relay_isolated out cfg x m (record s { world = w }) in
      (r.0, r.1, refl, ends.isolates x s m w e)
  relay_permanent_rule rec (x ∷ y ∷ ys) s m w ih h e =
      relay_halves_rule P rec (x ∷ y ∷ ys) (record s { world = w }) ends.joins ih (omega arith)

  relay_reply_rule :
      (rec : List Record → State W → Option (Outcome × State W)) (batch : List Record) (s : State W)
      (reply : Reply × W)
      → Shorter P rec (length batch)
      → 0 < length batch
      → out.send batch s.world ≡ reply
      → Returns P (relay_reply out cfg rec batch reply s) batch s.entries
  unfolding relay_reply
  relay_reply_rule rec batch s (delivered, w) ih h e =
      let r = relay_delivered out batch (record s { world = w }) in
      (r.0, r.1, refl, ends.delivers batch s w e)
  relay_reply_rule rec batch s (transient m, w) ih h e =
      let r = relay_transient out cfg batch m (record s { world = w }) in
      (r.0, r.1, refl, ends.retries batch s m w e)
  relay_reply_rule rec batch s (permanent m, w) ih h e = relay_permanent_rule rec batch s m w ih h e

  pub relay_rule :
      (fuel : ℕ) (batch : List Record) (s : State W)
      → 0 < length batch
      → length batch ≤ fuel
      → Returns P (relay out cfg fuel batch s) batch s.entries
  unfolding relay
  relay_rule zero batch s h k = absurd (omega arith)
  relay_rule (suc fuel) batch s h k =
      relay_reply_rule (relay out cfg fuel) batch s (out.send batch s.world)
        (λ b s' p q. relay_rule fuel b s' p (omega arith)) h refl
