-- ===== src/Prelude/Results.antt =====
-- Fallible steps, and the steps of one database transaction: `M S E A` reads and changes a state,
-- and an error gives up the state, as the deferred rollback does.
use mathlib.Core.Path.{◌≡◌, refl}
use mathlib.Core.Logic.{◌⊎◌, inl, inr}
use mathlib.Core.Bool.{Bool, true, false}
use mathlib.Core.Option.{Option, none, some}
use native.Mathlib.Omega.{arith}

pub data Result {ℓ κ} (E : Type ℓ) (A : Type κ) : Type (ℓ ⊔ κ) where
  ok : A → Result E A
  err : E → Result E A

abbrev pub M : Type 0 → Type 0 → Type 0 → Type 0
M S E A = S → Result E (A × S)

module _ {S E A : Type 0} where
  abbrev pub pure : A → M S E A
  pure a s = ok (a, s)

  abbrev pub throw : E → M S E A
  throw e s = err e

  abbrev pub gets : (S → A) → M S E A
  gets f s = ok (f s, s)

  -- A value that is absent is an error.
  abbrev pub or_throw : Option A → E → M S E A
  or_throw none e s = err e
  or_throw (some a) e s = ok (a, s)

abbrev pub modify : {S E : Type 0} → (S → S) → M S E (Unit {0})
modify f s = ok (tt, f s)

-- `if c { return err }`.
abbrev pub reject_if : {S E : Type 0} → Bool → E → M S E (Unit {0})
reject_if true e s = err e
reject_if false e s = ok (tt, s)

infixl 5 ◌>>=◌ ◌>>◌
abbrev pub ◌>>=◌ : {S E A B : Type 0} → M S E A → (A → M S E B) → M S E B
◌>>=◌ m f s = elim (m s) [ ok (a, s') ↦ f a s' | err e ↦ err e ]

abbrev pub ◌>>◌ : {S E B : Type 0} → M S E (Unit {0}) → M S E B → M S E B
m >> k = m >>= λ _. k

-- Translates the errors of a step.
abbrev pub map_err : {S E F A : Type 0} → (E → F) → M S E A → M S F A
map_err g m s = elim (m s) [ ok r ↦ ok r | err e ↦ err (g e) ]

-- Inversion of a successful chain.
pub >>=-eq-ok :
    {S E A B : Type 0} (m : M S E A) (f : A → M S E B) (s : S) {r : B × S}
    → (m >>= f) s ≡ ok r
    → (a : A) × (s' : S) × (m s ≡ ok (a, s')) × (f a s' ≡ ok r)
>>=-eq-ok {S = S} {E = E} {A = A} {B = B} m f s {r = r} h = go (m s) refl h
  where
    go :
        (x : Result E (A × S))
        → m s ≡ x
        → elim x as (λ _. Result E (B × S)) [ ok (a, s') ↦ f a s' | err e ↦ err e ] ≡ ok r
        → (a : A) × (s' : S) × (m s ≡ ok (a, s')) × (f a s' ≡ ok r)
    go (ok (a, s')) e k = (a, s', e, k)
    go (err x) e k = cc

pub map_err-eq-ok :
    {S E F A : Type 0} (g : E → F) (m : M S E A) (s : S) {r : A × S}
    → map_err g m s ≡ ok r
    → m s ≡ ok r
map_err-eq-ok g m s h = ground arith

pub Result-cases {ℓ κ} :
    {E : Type ℓ} {A : Type κ} (r : Result E A) → ((a : A) × (r ≡ ok a)) ⊎ ((e : E) × (r ≡ err e))
Result-cases (ok a) = inl (a, refl)
Result-cases (err e) = inr (e, refl)

pub ok-injective :
    {S E A : Type 0} {a b : A} {s t : S}
    → ◌≡◌ {A = Result E (A × S)} (ok (a, s)) (ok (b, t))
    → (a ≡ b) × (s ≡ t)
ok-injective h = (cc, cc)

pub or_throw-eq-ok :
    {S E A : Type 0} (o : Option A) (e : E) (s : S) {a : A} {s' : S}
    → or_throw o e s ≡ ok (a, s')
    → (o ≡ some a) × (s' ≡ s)
or_throw-eq-ok none e s h = cc
or_throw-eq-ok (some b) e s h = (cc, cc)

pub reject_if-eq-ok :
    {S E : Type 0} (b : Bool) (e : E) (s : S) {u : Unit {0}} {s' : S}
    → reject_if b e s ≡ ok (u, s')
    → (b ≡ false) × (s' ≡ s)
reject_if-eq-ok true e s h = cc
reject_if-eq-ok false e s h = (refl, cc)
