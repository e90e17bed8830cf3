-- ===== src/Platform/Outbox/Touch.antt =====
-- What `relay` of dispatcher.go does to the rows of a batch, and that it leaves the other rows.
use binno_pta_2026_evaluatio.Prelude.{
  ℕ, ◌≡◌, refl, sym, ◌∙◌, Bool, false, List, [], ◌∷◌, ◌++◌, ◌==◌, ==_iff, if◌then◌else◌, Bool-cases,
  inl, inr, arith, All, update_rows, ◌||◌, subst,
}
use binno_pta_2026_evaluatio.Platform.Outbox.{Record, Entry, has_id, mark}

-- Two lists of equal length, row by row.
abbrev pub Pairs : (Entry → Entry → Type 0) → List Entry → List Entry → Type 0
Pairs R [] [] = Unit
Pairs R [] (y ∷ ys) = ⊥
Pairs R (x ∷ xs) [] = ⊥
Pairs R (x ∷ xs) (y ∷ ys) = R x y × Pairs R xs ys

-- No two records have one id.
abbrev pub IsDistinct : List Record → Type 0
IsDistinct [] = Unit
IsDistinct (r ∷ rs) = (has_id r.id rs ≡ false) × IsDistinct rs

pub has_id-append :
    (id : ℕ) (xs ys : List Record) → has_id id (xs ++ ys) ≡ (has_id id xs || has_id id ys)
has_id-append id [] ys = refl
has_id-append id (x ∷ xs) ys = ground (arith, has_id-append id xs ys)

not-has_id : (id : ℕ) (xs ys : List Record) → has_id id (xs ++ ys) ≡ false → has_id id ys ≡ false
not-has_id id xs ys h = let e = has_id-append id xs ys in ground arith

pub IsDistinct-left : (xs ys : List Record) → IsDistinct (xs ++ ys) → IsDistinct xs
IsDistinct-left [] ys h = tt
IsDistinct-left (x ∷ xs) ys h =
    let e = has_id-append x.id xs ys in (ground arith, IsDistinct-left xs ys h.1)

pub IsDistinct-right : (xs ys : List Record) → IsDistinct (xs ++ ys) → IsDistinct ys
IsDistinct-right [] ys h = h
IsDistinct-right (x ∷ xs) ys h = IsDistinct-right xs ys h.1

module _ (V : Record → Entry → Entry → Type 0) where
  -- A row of the batch is related to what becomes of it by `V`, and any other row stays.
  abbrev pub Touch : List Record → Entry → Entry → Type 0
  Touch [] e e' = e' ≡ e
  Touch (r ∷ rs) e e' = if r.id == e.id then V r e e' else Touch rs e e'

  Touch-none :
      (batch : List Record) (e e' : Entry) → has_id e.id batch ≡ false → Touch batch e e' → e' ≡ e
  Touch-none [] e e' h t = t
  Touch-none (r ∷ rs) e e' h t = elim (Bool-cases (r.id == e.id)) [
    | inl same ↦ ground arith
    | inr other ↦ Touch-none rs e e' (ground arith) (rw other at t)
  ]

  Touch-append :
      ((r : Record) (e e' : Entry) → V r e e' → e'.id ≡ e.id)
      → (xs ys : List Record) (e e1 e2 : Entry) → IsDistinct (xs ++ ys)
      → Touch xs e e1
      → Touch ys e1 e2
      → Touch (xs ++ ys) e e2
  Touch-append same [] ys e e1 e2 h p q = subst (λ a. Touch ys a e2) p q
  Touch-append same (x ∷ xs) ys e e1 e2 h p q = elim (Bool-cases (x.id == e.id)) [
    | inl here ↦ rw here (
        let v : V x e e1 = rw here at p in
        let apart = not-has_id x.id xs ys h.0 in
        subst (λ a. V x e a)
          (sym (
            Touch-none ys e1 e2
              (subst (λ i. has_id i ys ≡ false) ((==_iff x.id e.id).0 here ∙ sym (same x e e1 v))
                apart)
              q))
          v)
    | inr other ↦ rw other (Touch-append same xs ys e e1 e2 h.1 (rw other at p) q)
  ]

  pub Pairs-join :
      ((r : Record) (e e' : Entry) → V r e e' → e'.id ≡ e.id)
      → (xs ys : List Record) (s s1 s2 : List Entry) → IsDistinct (xs ++ ys)
      → Pairs (Touch xs) s s1
      → Pairs (Touch ys) s1 s2
      → Pairs (Touch (xs ++ ys)) s s2
  Pairs-join same xs ys [] [] [] h p q = tt
  Pairs-join same xs ys [] [] (c ∷ cs) h p q = absurd q
  Pairs-join same xs ys [] (b ∷ bs) s2 h p q = absurd p
  Pairs-join same xs ys (a ∷ rest) [] s2 h p q = absurd p
  Pairs-join same xs ys (a ∷ rest) (b ∷ bs) [] h p q = absurd q
  Pairs-join same xs ys (a ∷ rest) (b ∷ bs) (c ∷ cs) h p q =
      (Touch-append same xs ys a b c h p.0 q.0, Pairs-join same xs ys rest bs cs h p.1 q.1)

  pub Pairs-self :
      (batch : List Record)
      → ((e : Entry) → Touch batch e e)
      → (es : List Entry) → Pairs (Touch batch) es es
  Pairs-self batch h [] = tt
  Pairs-self batch h (e ∷ es) = (h e, Pairs-self batch h es)

  pub Pairs-update :
      (batch : List Record) (p : Entry → Bool) (f : Entry → Entry)
      → ((e : Entry) → Touch batch e (if p e then f e else e))
      → (es : List Entry) → Pairs (Touch batch) es (update_rows p f es)
  Pairs-update batch p f h [] = tt
  Pairs-update batch p f h (e ∷ es) = (h e, Pairs-update batch p f h es)

  pub Touch-mark :
      (t : ℕ) (batch : List Record)
      → All (λ r. (e : Entry) (u : ℕ) → V r e (mark u e)) batch
      → (e : Entry) → Touch batch e (if has_id e.id batch then mark t e else e)
  Touch-mark t [] h e = refl
  Touch-mark t (r ∷ rs) h e = elim (Bool-cases (r.id == e.id)) [
    | inl here ↦ rw here (h.0 e t)
    | inr other ↦ rw other (Touch-mark t rs h.1 e)
  ]

  pub Touch-fail :
      (r : Record) (f : Entry → Entry)
      → ((e : Entry) → V r e (f e))
      → (e : Entry) → Touch (r ∷ []) e (if r.id == e.id then f e else e)
  Touch-fail r f h e = elim (Bool-cases (r.id == e.id)) [
    | inl here ↦ rw here (h e)
    | inr other ↦ rw other refl
  ]
