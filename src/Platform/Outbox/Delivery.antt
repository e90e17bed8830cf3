-- ===== src/Platform/Outbox/Delivery.antt =====
-- `relay` of dispatcher.go: with any sink, and with one that rejects particular records.
use binno_pta_2026_evaluatio.Prelude.{
  ℕ, ◌+◌, ◌≡◌, refl, Bool, true, false, not, ◌||◌, some, List, [], ◌∷◌, ◌++◌, String, if◌then◌else◌,
  Bool-cases, inl, inr, length, length-append, count_rows, arith, All, ◌≤◌, ◌<◌, ◌⊎◌,
}
use binno_pta_2026_evaluatio.Platform.Outbox.{
  Record, Entry, DispatcherConfig, Outside, State, Outcome, Failure, refused, isolated, delivered,
  transient, permanent, mark, fail_entry, relay,
}
use binno_pta_2026_evaluatio.Platform.Outbox.Touch.{Pairs, IsDistinct, Touch}
use binno_pta_2026_evaluatio.Platform.Outbox.Settling.{Serves, relay-Settles}

-- The row is marked dispatched at some time.
abbrev pub IsDispatched : Entry → Entry → Type 0
IsDispatched e e' = (t : ℕ) × (e' ≡ mark t e)

-- One failure of the record is recorded in the row, at some time.
abbrev pub HasFailed : DispatcherConfig → Record → Entry → Entry → Type 0
HasFailed cfg r e e' = (t : ℕ) × (m : String) × (e' ≡ fail_entry cfg r t m e)

-- The one or the other.
abbrev pub IsSettled : DispatcherConfig → Record → Entry → Entry → Type 0
IsSettled cfg r e e' = IsDispatched e e' ⊎ HasFailed cfg r e e'

-- At most the batch is relayed, and all of it if there is no error.
abbrev pub Counted : List Record → Outcome → Type 0
Counted batch o = (o.0 ≤ length batch) × (o.1 ≡ [] → o.0 ≡ length batch)

All-any : {P : Record → Type 0} → ((r : Record) → P r) → (rs : List Record) → All P rs
All-any h [] = tt
All-any h (r ∷ rs) = (h r, All-any h rs)

settled_id :
    (cfg : DispatcherConfig) (r : Record) (e e' : Entry) → IsSettled cfg r e e' → e'.id ≡ e.id
settled_id cfg r e e' (inl (t, p)) = rw p refl
settled_id cfg r e e' (inr (t, m, p)) = rw p refl

append-[] : (xs ys : List Failure) → xs ++ ys ≡ [] → (xs ≡ []) × (ys ≡ [])
append-[] [] ys h = (refl, h)
append-[] (x ∷ xs) ys h = cc

Counted-join :
    (xs ys : List Record) (o o' : Outcome)
    → Counted xs o
    → Counted ys o'
    → Counted (xs ++ ys) (o.0 + o'.0, o.1 ++ o'.1)
Counted-join xs ys o o' (a, b) (c, d) = (
  omega (arith, length-append xs ys),
  λ h.
      let (p, q) = append-[] o.1 o'.1 h in
      let p' = b p in let q' = d q in omega (arith, length-append xs ys),
)

-- Of a batch with at least one record and no two of one id, and with statements that go through,
-- `relay` returns on as much fuel as the batch is long, whatever the sink answers and the clock
-- shows. Each row of the batch is then marked dispatched, or has one failure of its record
-- recorded; every other row is as before; the number reported is at most the batch's, and is the
-- whole batch's if no error is reported.
pub relay_terminates :
    {W : Type 0} (out : Outside W) (cfg : DispatcherConfig) (fuel : ℕ) (batch : List Record)
    (s : State W)
    → Serves out
    → IsDistinct batch
    → 0 < length batch
    → length batch ≤ fuel
    → (o : Outcome) × (s' : State W) × (relay out cfg fuel batch s ≡ some (o, s'))
      × Pairs (Touch (IsSettled cfg) batch) s.entries s'.entries
      × Counted batch o
relay_terminates out cfg fuel batch s serves h k l =
    let (o, s', e, f) =
      relay-Settles out serves cfg (IsSettled cfg) Counted
        (record {
          same_id = settled_id cfg;
          on_delivery = λ b w w' p. (All-any (λ r e t. inl (t, refl)) b, (omega arith, λ _. refl));
          on_retry =
              λ b m w w' p. (All-any (λ r e t k. inr (t, k, refl)) b, λ es. (omega arith, λ q. cc));
          on_rejection = λ x m w w' p. ((λ e t k. inr (t, k, refl)), (omega arith, λ q. cc));
          on_join = Counted-join;
        })
        fuel batch s k l in
    (o, s', e, (f h).0, (f h).1)

-- Is one of the records poison?
abbrev pub any_poison : (Record → Bool) → List Record → Bool
any_poison poison [] = false
any_poison poison (r ∷ rs) = poison r || any_poison poison rs

-- The sink rejects a batch for good just if one of its records is poison.
pub record Rejects {W : Type 0} (out : Outside W) (poison : Record → Bool) : Type 0 where
  pub accepts :
      (batch : List Record) (w : W)
      → any_poison poison batch ≡ false
      → (out.send batch w).0 ≡ delivered
  pub rejects :
      (batch : List Record) (w : W)
      → any_poison poison batch ≡ true
      → (m : String) × ((out.send batch w).0 ≡ permanent m)

-- A poison row has failed, and any other is dispatched.
abbrev pub IsSorted : DispatcherConfig → (Record → Bool) → Record → Entry → Entry → Type 0
IsSorted cfg poison r e e' = if poison r then HasFailed cfg r e e' else IsDispatched e e'

abbrev pub Tally : (Record → Bool) → List Record → Outcome → Type 0
Tally poison batch o =
    (o.0 ≡ count_rows (λ r. not (poison r)) batch) × (length o.1 ≡ count_rows poison batch)

sorted_id :
    (cfg : DispatcherConfig) (poison : Record → Bool) (r : Record) (e e' : Entry)
    → IsSorted cfg poison r e e'
    → e'.id ≡ e.id
sorted_id cfg poison r e e' h = elim (Bool-cases (poison r)) [
  | inl bad ↦ settled_id cfg r e e' (inr (rw bad at h))
  | inr good ↦ settled_id cfg r e e' (inl (rw good at h))
]

no_poison :
    (cfg : DispatcherConfig) (poison : Record → Bool) (batch : List Record)
    → any_poison poison batch ≡ false
    → All (λ r. (e : Entry) (t : ℕ) → IsSorted cfg poison r e (mark t e)) batch
      × Tally poison batch (length batch, [])
no_poison cfg poison [] h = (tt, (refl, refl))
no_poison cfg poison (r ∷ rs) h =
    let good : poison r ≡ false = ground arith in
    let (a, (b, c)) = no_poison cfg poison rs (ground arith) in
    (((λ e t. rw good (t, refl)), a), (rw good (omega arith), rw good c))

count_rows-append :
    (p : Record → Bool) (xs ys : List Record)
    → count_rows p (xs ++ ys) ≡ count_rows p xs + count_rows p ys
count_rows-append p [] ys = omega arith
count_rows-append p (x ∷ xs) ys = ground (arith, count_rows-append p xs ys)

Tally-join :
    (poison : Record → Bool) (xs ys : List Record) (o o' : Outcome)
    → Tally poison xs o
    → Tally poison ys o'
    → Tally poison (xs ++ ys) (o.0 + o'.0, o.1 ++ o'.1)
Tally-join poison xs ys o o' (a, b) (c, d) = (
  omega (arith, count_rows-append (λ r. not (poison r)) xs ys),
  omega (arith, count_rows-append poison xs ys, length-append o.1 o'.1),
)

-- With a sink that refuses for good exactly the batches that hold a poison record and delivers the
-- others, on as much fuel as the batch is long and with statements that go through, `relay` isolates
-- the poison of a batch of distinct records: the row of each poison record has one failure recorded,
-- the row of each other record of the batch is dispatched, and every other row is as before. The
-- number reported is that of the good records, and there is one error for each poison record.
pub relay-isolates :
    {W : Type 0} (out : Outside W) (cfg : DispatcherConfig) (poison : Record → Bool) (fuel : ℕ)
    (batch : List Record) (s : State W)
    → Serves out
    → Rejects out poison
    → IsDistinct batch
    → 0 < length batch
    → length batch ≤ fuel
    → (o : Outcome) × (s' : State W) × (relay out cfg fuel batch s ≡ some (o, s'))
      × Pairs (Touch (IsSorted cfg poison) batch) s.entries s'.entries
      × Tally poison batch o
relay-isolates {W} out cfg poison fuel batch s serves sink h k l =
    let (o, s', e, f) =
      relay-Settles out serves cfg (IsSorted cfg poison) (Tally poison)
        (record {
          same_id = sorted_id cfg poison;
          on_delivery = on_delivery;
          on_retry = on_retry;
          on_rejection = on_rejection;
          on_join = Tally-join poison;
        })
        fuel batch s k l in
    (o, s', e, (f h).0, (f h).1)
  where
    on_delivery :
        (b : List Record) (w w' : W)
        → out.send b w ≡ (delivered, w')
        → All (λ r. (e : Entry) (t : ℕ) → IsSorted cfg poison r e (mark t e)) b
          × Tally poison b (length b, [])
    on_delivery b w w' p = elim (Bool-cases (any_poison poison b)) [
      | inl bad ↦ let (m, q) = sink.rejects b w bad in cc
      | inr good ↦ no_poison cfg poison b good
    ]

    on_retry :
        (b : List Record) (m : String) (w w' : W)
        → out.send b w ≡ (transient m, w')
        → All
            (λ r.
              (e : Entry) (t : ℕ) (k : String) → IsSorted cfg poison r e (fail_entry cfg r t k e))
            b
          × ((es : List Failure) → Tally poison b (0, refused m ∷ es))
    on_retry b m w w' p = elim (Bool-cases (any_poison poison b)) [
      | inl bad ↦ let (m', q) = sink.rejects b w bad in cc
      | inr good ↦ let q = sink.accepts b w good in cc
    ]

    on_rejection :
        (x : Record) (m : String) (w w' : W)
        → out.send (x ∷ []) w ≡ (permanent m, w')
        → ((e : Entry) (t : ℕ) (k : String) → IsSorted cfg poison x e (fail_entry cfg x t k e))
          × Tally poison (x ∷ []) (0, isolated x.id m ∷ [])
    on_rejection x m w w' p = elim (Bool-cases (any_poison poison (x ∷ []))) [
      | inl bad ↦
          let bad' : poison x ≡ true = ground arith in
          ((λ e t k. rw bad' (t, k, refl)), (rw bad' refl, rw bad' refl))
      | inr good ↦ let q = sink.accepts (x ∷ []) w good in cc
    ]
