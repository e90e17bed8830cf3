-- ===== src/Platform/Outbox/Passing.antt =====
-- What the statements of dispatcher.go may do to a row, whether or not they go through.
use binno_pta_2026_evaluatio.Prelude.{
  ℕ, ◌≡◌, refl, ◌∙◌, Bool, true, List, [], ◌∷◌, ◌++◌, String, ◌==◌, Bool-cases, Option-cases, inl,
  inr, ◌⊎◌, All, update_rows, arith, subst, length, ◌≤◌, ◌<◌,
}
use binno_pta_2026_evaluatio.Platform.Outbox.{
  Record, Entry, DispatcherConfig, Outside, State, has_id, mark, fail_entry, exec, mark_dispatched,
  record_failure, record_batch_failure, relay_delivered, relay_transient, relay_isolated, relay,
}
use binno_pta_2026_evaluatio.Platform.Outbox.Relay.{Returns, relay_rule}
use binno_pta_2026_evaluatio.Platform.Outbox.Touch.{Pairs, has_id-append}

pub All-Pairs :
    (R : Entry → Entry → Type 0) (P Q : Entry → Type 0)
    → ((e e' : Entry) → R e e' → P e → Q e')
    → (es es' : List Entry) → Pairs R es es'
    → All P es
    → All Q es'
All-Pairs R P Q f [] [] h p = tt
All-Pairs R P Q f [] (y ∷ ys) h p = absurd h
All-Pairs R P Q f (x ∷ xs) [] h p = absurd h
All-Pairs R P Q f (x ∷ xs) (y ∷ ys) h p = (f x y h.0 p.0, All-Pairs R P Q f xs ys h.1 p.1)

pub Pairs-with :
    (R : Entry → Entry → Type 0) (P : Entry → Type 0)
    → (es es' : List Entry) → All P es
    → Pairs R es es'
    → Pairs (λ e e'. P e × R e e') es es'
Pairs-with R P [] [] p h = tt
Pairs-with R P [] (y ∷ ys) p h = h
Pairs-with R P (x ∷ xs) [] p h = h
Pairs-with R P (x ∷ xs) (y ∷ ys) p h = ((p.0, h.0), Pairs-with R P xs ys p.1 h.1)

Pairs-trans :
    (R S T : Entry → Entry → Type 0)
    → ((a b c : Entry) → R a b → S b c → T a c)
    → (x y z : List Entry) → Pairs R x y
    → Pairs S y z
    → Pairs T x z
Pairs-trans R S T f [] [] [] p q = tt
Pairs-trans R S T f [] [] (c ∷ cs) p q = absurd q
Pairs-trans R S T f [] (b ∷ bs) z p q = absurd p
Pairs-trans R S T f (a ∷ x) [] z p q = absurd p
Pairs-trans R S T f (a ∷ x) (b ∷ y) [] p q = absurd q
Pairs-trans R S T f (a ∷ x) (b ∷ y) (c ∷ z) p q =
    (f a b c p.0 q.0, Pairs-trans R S T f x y z p.1 q.1)

pub Pairs-refl :
    (R : Entry → Entry → Type 0) → ((e : Entry) → R e e) → (es : List Entry) → Pairs R es es
Pairs-refl R h [] = tt
Pairs-refl R h (e ∷ es) = (h e, Pairs-refl R h es)

pub Pairs-update_rows :
    (R : Entry → Entry → Type 0) (p : Entry → Bool) (f : Entry → Entry)
    → ((e : Entry) → p e ≡ true → R e (f e))
    → ((e : Entry) → R e e)
    → (es : List Entry) → Pairs R es (update_rows p f es)
Pairs-update_rows R p f h k [] = tt
Pairs-update_rows R p f h k (e ∷ es) = (
  elim (Bool-cases (p e)) [ inl y ↦ rw y (h e y) | inr n ↦ rw n (k e) ],
  Pairs-update_rows R p f h k es,
)

-- The key and the aggregate stay, and only rows that the batch names change.
abbrev pub Spares : List Record → Entry → Entry → Type 0
Spares batch e e' =
    (e'.id ≡ e.id) × (e'.aggregate_id ≡ e.aggregate_id) × ((e' ≡ e) ⊎ (has_id e.id batch ≡ true))

Spares-self : (batch : List Record) (e : Entry) → Spares batch e e
Spares-self batch e = (refl, refl, inl refl)

has_id-left : (id : ℕ) (xs ys : List Record) → has_id id xs ≡ true → has_id id (xs ++ ys) ≡ true
has_id-left id xs ys h = rw (has_id-append id xs ys) (rw h refl)

has_id-right : (id : ℕ) (xs ys : List Record) → has_id id ys ≡ true → has_id id (xs ++ ys) ≡ true
has_id-right id xs ys h = let e = has_id-append id xs ys in ground arith

Spares-trans :
    (xs ys : List Record) (a b c : Entry) → Spares xs a b → Spares ys b c → Spares (xs ++ ys) a c
Spares-trans xs ys a b c (i, g, inr h) (i', g', _) =
    (i' ∙ i, g' ∙ g, inr (has_id-left a.id xs ys h))
Spares-trans xs ys a b c (i, g, inl h) (i', g', inl k) = (i' ∙ i, g' ∙ g, inl (k ∙ h))
Spares-trans xs ys a b c (i, g, inl h) (i', g', inr k) =
    (i' ∙ i, g' ∙ g, inr (has_id-right a.id xs ys (subst (λ n. has_id n ys ≡ true) i k)))

module _ {W : Type 0} (out : Outside W) where
  -- A statement has its effect or none.
  exec-Pairs :
      (R : Entry → Entry → Type 0) (change : List Entry → List Entry) (s : State W)
      → Pairs R s.entries (change s.entries)
      → Pairs R s.entries s.entries
      → Pairs R s.entries (exec out change s).1.entries
  unfolding exec
  exec-Pairs R change s h k = elim (Option-cases (out.exec s.world).0) [
    | inl fine ↦ rw fine h
    | inr (m, bad) ↦ rw bad k
  ]

  abbrev Sparing : List Record → State W → State W → Type 0
  Sparing batch s s' = Pairs (Spares batch) s.entries s'.entries

  mark_dispatched-Spares :
      (batch : List Record) (s : State W) → Sparing batch s (mark_dispatched out batch s).1
  unfolding mark_dispatched
  mark_dispatched-Spares batch s =
      let (t, w) = out.now s.world in
      exec-Pairs (Spares batch) (update_rows (λ e. has_id e.id batch) (mark t))
        (record s { world = w })
        (Pairs-update_rows (Spares batch) (λ e. has_id e.id batch) (mark t)
          (λ e h. (refl, refl, inr h)) (Spares-self batch) s.entries)
        (Pairs-refl (Spares batch) (Spares-self batch) s.entries)

  record_failure-Spares :
      (cfg : DispatcherConfig) (r : Record) (m : String) (s : State W)
      → Sparing (r ∷ []) s (record_failure out cfg r m s).1
  unfolding record_failure
  record_failure-Spares cfg r m s =
      let (t, w) = out.now s.world in
      let fail = fail_entry cfg r t (out.cut m) in
      exec-Pairs (Spares (r ∷ [])) (update_rows (λ e. r.id == e.id) fail) (record s { world = w })
        (Pairs-update_rows (Spares (r ∷ [])) (λ e. r.id == e.id) fail
          (λ e h. (refl, refl, inr (rw h refl))) (Spares-self (r ∷ [])) s.entries)
        (Pairs-refl (Spares (r ∷ [])) (Spares-self (r ∷ [])) s.entries)

  record_batch_failure-Spares :
      (cfg : DispatcherConfig) (batch : List Record) (m : String) (s : State W)
      → Sparing batch s (record_batch_failure out cfg batch m s).1
  unfolding record_batch_failure
  record_batch_failure-Spares cfg [] m s = Pairs-refl (Spares []) (Spares-self []) s.entries
  record_batch_failure-Spares cfg (r ∷ rs) m s =
      let s1 = (record_failure out cfg r m s).1 in
      Pairs-trans (Spares (r ∷ [])) (Spares rs) (Spares (r ∷ rs)) (Spares-trans (r ∷ []) rs)
        s.entries s1.entries (record_batch_failure out cfg rs m s1).1.entries
        (record_failure-Spares cfg r m s) (record_batch_failure-Spares cfg rs m s1)

  -- A run of `relay` on a batch that has records returns, and spares the other rows.
  pub relay-Spares :
      (cfg : DispatcherConfig) (fuel : ℕ) (batch : List Record) (s : State W)
      → 0 < length batch
      → length batch ≤ fuel
      → Returns (λ b es o es'. Pairs (Spares b) es es') (relay out cfg fuel batch s) batch s.entries
  unfolding relay_delivered relay_transient relay_isolated
  relay-Spares cfg =
      relay_rule out cfg (λ b es o es'. Pairs (Spares b) es es')
        (record {
          delivers = λ batch s w e. mark_dispatched-Spares batch (record s { world = w });
          retries =
              λ batch s m w e. record_batch_failure-Spares cfg batch m (record s { world = w });
          isolates = λ x s m w e. record_failure-Spares cfg x m (record s { world = w });
          joins = λ xs ys s s1 s2 o1 o2 p q.
              Pairs-trans (Spares xs) (Spares ys) (Spares (xs ++ ys)) (Spares-trans xs ys) s s1 s2 p
                q;
        })
