-- ===== src/Platform/Outbox/InOrder.antt =====
-- `RunOnce` of dispatcher.go keeps the events of an aggregate in order.
use binno_pta_2026_evaluatio.Prelude.{
  ℕ, ◌≡◌, ◌≢◌, refl, sym, ◌∙◌, subst, Bool, true, false, ◌&&◌, some, List, [], ◌∷◌, Bool-cases, inl,
  inr, All, All-map, ltb, str_eq,
}
use binno_pta_2026_evaluatio.Platform.Outbox.{Record, Entry, has_id}
use binno_pta_2026_evaluatio.Platform.Outbox.Pass.{
  is_none, is_pending, is_prior, lease_rows, remove_first,
}
use binno_pta_2026_evaluatio.Platform.Outbox.Touch.{Pairs}
use binno_pta_2026_evaluatio.Platform.Outbox.Heads.{IsKeyed, Heads}
use binno_pta_2026_evaluatio.Platform.Outbox.Passing.{
  All-Pairs, Pairs-with, Pairs-update_rows, Spares,
}

-- A dispatched row has no pending row of its aggregate before it in the table.
abbrev Follows : List Entry → Entry → Type 0
Follows table e = is_none e.dispatched_at ≡ false → All (λ p. is_prior e p ≡ false) table

-- The ids are a key, and every row that is dispatched had the earlier rows of its aggregate
-- dispatched or given up.
pub record IsInOrder (es : List Entry) : Type 0 where
  pub keyed : IsKeyed es
  pub ordered : All (Follows es) es

IsKeyed-Pairs :
    (R : Entry → Entry → Type 0)
    → ((e e' : Entry) → R e e' → e'.id ≡ e.id)
    → (es es' : List Entry) → Pairs R es es'
    → IsKeyed es
    → IsKeyed es'
IsKeyed-Pairs R same [] [] h k = tt
IsKeyed-Pairs R same [] (y ∷ ys) h k = absurd h
IsKeyed-Pairs R same (x ∷ xs) [] h k = absurd h
IsKeyed-Pairs R same (x ∷ xs) (y ∷ ys) (h, hs) (k, ks) = (
  All-Pairs R (λ e. e.id ≢ x.id) (λ e. e.id ≢ y.id)
      (λ e e' r apart p. apart (sym (same e e' r) ∙ (p ∙ same x y h))) xs ys hs k,
  IsKeyed-Pairs R same xs ys hs ks,
)

-- What a relation keeps of the order.
module _ (R : Entry → Entry → Type 0)
    (prior : (e e' p p' : Entry)
      → R e e'
      → R p p'
      → is_prior e p ≡ false
      → is_prior e' p' ≡ false) where
  none_prior :
      (e e' : Entry) (es es' : List Entry)
      → R e e'
      → Pairs R es es'
      → All (λ p. is_prior e p ≡ false) es
      → All (λ p. is_prior e' p ≡ false) es'
  none_prior e e' es es' r h =
      All-Pairs R (λ p. is_prior e p ≡ false) (λ p. is_prior e' p ≡ false)
        (λ p p' q. prior e e' p p' r q) es es' h

-- A row that keeps its key, its aggregate and its ends.
abbrev Alike : Entry → Entry → Type 0
Alike e e' =
    (e'.id ≡ e.id)
    × (e'.aggregate_id ≡ e.aggregate_id)
    × (e'.dispatched_at ≡ e.dispatched_at)
    × (e'.dead_lettered_at ≡ e.dead_lettered_at)

Alike-prior :
    (e e' p p' : Entry) → Alike e e' → Alike p p' → is_prior e p ≡ false → is_prior e' p' ≡ false
Alike-prior e e' p p' (a, b, c, d) (a', b', c', d') h = rw (a, b, a', b', c', d') h

Alike-IsInOrder : (es es' : List Entry) → Pairs Alike es es' → IsInOrder es → IsInOrder es'
Alike-IsInOrder es es' h i = record {
  keyed = IsKeyed-Pairs Alike (λ e e' r. r.0) es es' h i.keyed;
  ordered =
      All-Pairs Alike (Follows es) (Follows es')
        (λ e e' r f d.
          none_prior Alike Alike-prior e e' es es' r h (f (subst (λ o. is_none o ≡ false) r.2 d)))
        es es' h i.ordered;
}

-- A row that `relay` may have changed, and that was the first pending one of its aggregate.
abbrev Relayed : List Record → List Entry → Entry → Entry → Type 0
Relayed batch table e e' =
    (has_id e.id batch ≡ true → (is_pending e ≡ true) × All (λ p. is_prior e p ≡ false) table)
    × Spares batch e e'

not_both : (a b c d : Bool) → (a && (b && c)) ≡ false → c ≡ true → (a && (b && d)) ≡ false
not_both true true c d h k = cc
not_both true false c d h k = refl
not_both false b c d h k = refl

Relayed-prior :
    (batch : List Record) (table : List Entry) (e e' p p' : Entry)
    → Relayed batch table e e'
    → Relayed batch table p p'
    → is_prior e p ≡ false
    → is_prior e' p' ≡ false
Relayed-prior batch table e e' p p' (_, (a, b, _)) (_, (a', b', inl k)) h = rw k (rw (a, b) h)
Relayed-prior batch table e e' p p' (_, (a, b, _)) (k, (a', b', inr c)) h =
    rw (a, b, a', b')
      (not_both (str_eq p.aggregate_id e.aggregate_id) (ltb p.id e.id) (is_pending p)
        (is_pending p') h (k c).0)

Relayed-Follows :
    (batch : List Record) (table : List Entry) (e e' : Entry)
    → Relayed batch table e e'
    → Follows table e
    → is_none e'.dispatched_at ≡ false
    → All (λ p. is_prior e p ≡ false) table
Relayed-Follows batch table e e' (h, (_, _, inl k)) f d =
    f (subst (λ x. is_none x.dispatched_at ≡ false) k d)
Relayed-Follows batch table e e' (h, (_, _, inr c)) f d = (h c).1

pub relay-IsInOrder :
    (batch : List Record) (es es' : List Entry)
    → Heads batch es es
    → Pairs (Spares batch) es es'
    → IsInOrder es
    → IsInOrder es'
relay-IsInOrder batch es es' heads h i =
    let R = Relayed batch es in
    let r =
      Pairs-with (Spares batch)
        (λ e. has_id e.id batch ≡ true → (is_pending e ≡ true) × All (λ p. is_prior e p ≡ false) es)
        es es' heads h in
    record {
      keyed = IsKeyed-Pairs R (λ e e' s. s.1.0) es es' r i.keyed;
      ordered =
          All-Pairs R (Follows es) (Follows es')
            (λ e e' s f d.
              none_prior R (Relayed-prior batch es) e e' es es' s r
                (Relayed-Follows batch es e e' s f d))
            es es' r i.ordered;
    }

-- Fewer rows are in order too.
remove_first-All :
    (P : Entry → Type 0) (p : Entry → Bool) (es : List Entry) → All P es → All P (remove_first p es)
remove_first-All P p [] h = tt
remove_first-All P p (e ∷ es) h = elim (Bool-cases (p e)) [
  | inl gone ↦ rw gone h.1
  | inr stays ↦ rw stays (h.0, remove_first-All P p es h.1)
]

remove_first-IsKeyed :
    (p : Entry → Bool) (es : List Entry) → IsKeyed es → IsKeyed (remove_first p es)
remove_first-IsKeyed p [] h = tt
remove_first-IsKeyed p (e ∷ es) h = elim (Bool-cases (p e)) [
  | inl gone ↦ rw gone h.1
  | inr stays ↦
      rw stays (remove_first-All (λ x. x.id ≢ e.id) p es h.0, remove_first-IsKeyed p es h.1)
]

pub remove_first-IsInOrder :
    (p : Entry → Bool) (es : List Entry) → IsInOrder es → IsInOrder (remove_first p es)
remove_first-IsInOrder p es i = record {
  keyed = remove_first-IsKeyed p es i.keyed;
  ordered =
      remove_first-All (Follows (remove_first p es)) p es
        (All-map (λ e f d. remove_first-All (λ q. is_prior e q ≡ false) p es (f d)) es i.ordered);
}

-- Leasing rows leaves their keys, aggregates and ends.
lease_rows-Alike :
    (now : ℕ) (batch : List Record) (es : List Entry) → Pairs Alike es (lease_rows now batch es)
lease_rows-Alike now batch =
    Pairs-update_rows Alike (λ e. has_id e.id batch) (λ e. record e { claimed_at = some now })
      (λ e h. (refl, refl, refl, refl)) (λ e. (refl, refl, refl, refl))

pub lease_rows-IsInOrder :
    (now : ℕ) (batch : List Record) (es : List Entry)
    → IsInOrder es
    → IsInOrder (lease_rows now batch es)
lease_rows-IsInOrder now batch es =
    Alike-IsInOrder es (lease_rows now batch es) (lease_rows-Alike now batch es)

pub lease_rows-Heads :
    (now : ℕ) (batch : List Record) (es : List Entry)
    → Heads batch es es
    → Heads batch (lease_rows now batch es) (lease_rows now batch es)
lease_rows-Heads now batch es h =
    let leased = lease_rows now batch es in
    let alike = lease_rows-Alike now batch es in
    All-Pairs Alike
      (λ e. has_id e.id batch ≡ true → (is_pending e ≡ true) × All (λ p. is_prior e p ≡ false) es)
      (λ e.
        has_id e.id batch ≡ true → (is_pending e ≡ true) × All (λ p. is_prior e p ≡ false) leased)
      (λ e e' r k c.
        let (a, b) = k (subst (λ n. has_id n batch ≡ true) r.0 c) in
        (rw (r.2, r.3) a, none_prior Alike Alike-prior e e' es leased r alike b))
      es leased alike h
