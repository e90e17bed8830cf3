-- ===== src/Platform/Io.antt =====
-- Steps that no transaction joins: what a step wrote before an error stays written, as with calls of
-- Redis and of the SMS gateway, and with statements on a connection pool.
use binno_pta_2026_evaluatio.Prelude.{Result, ok, err}

abbrev pub Io : Type 0 → Type 0 → Type 0 → Type 0
Io S E A = S → Result E A × S

module _ {S E A : Type 0} where
  abbrev pub done : A → Io S E A
  done a s = (ok a, s)

  abbrev pub fails : E → Io S E A
  fails e s = (err e, s)

abbrev pub reads : {S E A : Type 0} → (S → A) → Io S E A
reads f s = (ok (f s), s)

infixl 5 ◌>>=◌ ◌>>◌
abbrev pub ◌>>=◌ : {S E A B : Type 0} → Io S E A → (A → Io S E B) → Io S E B
◌>>=◌ m f s = let (r, s') = m s in elim r [ ok a ↦ f a s' | err e ↦ (err e, s') ]

abbrev pub ◌>>◌ : {S E B : Type 0} → Io S E (Unit {0}) → Io S E B → Io S E B
m >> k = m >>= λ _. k

-- Translates the errors of a step.
abbrev pub on_err : {S E F A : Type 0} → (E → F) → Io S E A → Io S F A
on_err g m s = let (r, s') = m s in elim r [ ok a ↦ (ok a, s') | err e ↦ (err (g e), s') ]
