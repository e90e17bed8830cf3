-- ===== src/Platform/Outbox/Heads.antt =====
-- `claim` of dispatcher.go takes pending rows that no pending row of their aggregate precedes.
use binno_pta_2026_evaluatio.Prelude.{
  ℕ, zero, suc, ◌≡◌, ◌≢◌, refl, sym, subst, Bool, true, false, not, List, [], ◌∷◌, map, Bool-cases,
  inl, inr, All, All-zip, select_rows, arith, &&-eq-true,
}
use binno_pta_2026_evaluatio.Platform.Outbox.{Record, Entry, has_id}
use binno_pta_2026_evaluatio.Platform.Outbox.Pass.{
  is_pending, is_due, is_free, is_prior, has_prior, is_claimable, limit, to_record, claimed_rows,
}

-- The ids are a key.
abbrev pub IsKeyed : List Entry → Type 0
IsKeyed [] = Unit
IsKeyed (e ∷ es) = All (λ x. x.id ≢ e.id) es × IsKeyed es

-- Each row whose id the batch has is pending, and no row of the table is prior to it.
abbrev pub Heads : List Record → List Entry → List Entry → Type 0
Heads batch table =
    All (λ e.
      has_id e.id batch ≡ true → (is_pending e ≡ true) × All (λ p. is_prior e p ≡ false) table)

no_prior :
    (e : Entry) (table : List Entry)
    → has_prior e table ≡ false
    → All (λ p. is_prior e p ≡ false) table
no_prior e [] h = tt
no_prior e (p ∷ ps) h = elim (Bool-cases (is_prior e p)) [
  | inl bad ↦ let k : true ≡ false = rw bad at h in cc
  | inr good ↦ (good, no_prior e ps (rw good at h))
]

not-true : (a : Bool) → not a ≡ true → a ≡ false
not-true true h = cc
not-true false h = refl

is_claimable-head :
    (now lease : ℕ) (table : List Entry) (e : Entry)
    → is_claimable now lease table e ≡ true
    → (is_pending e ≡ true) × All (λ p. is_prior e p ≡ false) table
is_claimable-head now lease table e h =
    let (a, b) = &&-eq-true (is_pending e) _ h in
    let (_, c) = &&-eq-true (is_due now e.next_attempt_at) _ b in
    let (_, d) = &&-eq-true (is_free lease e.claimed_at) _ c in
    (a, no_prior e table (not-true (has_prior e table) d))

-- Rows without an id stay so.
abbrev Lacks : ℕ → List Entry → Type 0
Lacks id = All (λ x. x.id ≢ id)

select_rows-Lacks :
    (id : ℕ) (p : Entry → Bool) (es : List Entry) → Lacks id es → Lacks id (select_rows p es)
select_rows-Lacks id p [] h = tt
select_rows-Lacks id p (x ∷ xs) h = elim (Bool-cases (p x)) [
  | inl yes_ ↦ rw yes_ (h.0, select_rows-Lacks id p xs h.1)
  | inr no_ ↦ rw no_ (select_rows-Lacks id p xs h.1)
]

limit-Lacks : (id n : ℕ) (es : List Entry) → Lacks id es → Lacks id (limit n es)
limit-Lacks id n [] h = tt
limit-Lacks id zero (x ∷ xs) h = tt
limit-Lacks id (suc n) (x ∷ xs) h = (h.0, limit-Lacks id n xs h.1)

has_id-Lacks : (id : ℕ) (es : List Entry) → Lacks id es → has_id id (map to_record es) ≡ false
has_id-Lacks id [] h = refl
has_id-Lacks id (x ∷ xs) h = ground (arith, has_id-Lacks id xs h.1)

-- A row of the list with the id of a selected one fits the condition.
abbrev Fits : (Entry → Bool) → ℕ → List Entry → Entry → Type 0
Fits p n es e = has_id e.id (map to_record (limit n es)) ≡ true → p e ≡ true

Fits-skip :
    (p : Entry → Bool) (n : ℕ) (x : Entry) (chosen xs : List Entry)
    → Lacks x.id xs
    → ((m : ℕ) → All (Fits p m chosen) xs)
    → All (Fits p n (x ∷ chosen)) xs
Fits-skip p zero x chosen xs h k = All-zip (λ e _ _ q. cc) xs h h
Fits-skip p (suc m) x chosen xs h k = All-zip (λ e apart fits q. fits (ground arith)) xs h (k m)

selected :
    (p : Entry → Bool) (n : ℕ) (es : List Entry) → IsKeyed es → All (Fits p n (select_rows p es)) es
selected p n [] h = tt
selected p n (x ∷ xs) h = elim (Bool-cases (p x)) [
  | inl chosen ↦
      let e : select_rows p (x ∷ xs) ≡ x ∷ select_rows p xs = rw chosen refl in
      subst (λ l. All (Fits p n l) (x ∷ xs)) (sym e)
        ((λ _. chosen), Fits-skip p n x (select_rows p xs) xs h.0 (λ m. selected p m xs h.1))
  | inr other ↦
      let e : select_rows p (x ∷ xs) ≡ select_rows p xs = rw other refl in
      subst (λ l. All (Fits p n l) (x ∷ xs)) (sym e)
        (
          (λ q.
              let none_ =
                has_id-Lacks x.id (limit n (select_rows p xs))
                  (limit-Lacks x.id n (select_rows p xs) (select_rows-Lacks x.id p xs h.0)) in
              cc),
          selected p n xs h.1,
        )
]

-- The claimed rows are heads.
pub claimed_rows-Heads :
    (now lease size : ℕ) (es : List Entry)
    → IsKeyed es
    → Heads (claimed_rows now lease size es) es es
claimed_rows-Heads now lease size es h =
    All-zip (λ e fits _ q. is_claimable-head now lease es e (fits q)) es
      (selected (is_claimable now lease es) size es h)
      (selected (is_claimable now lease es) size es h)
