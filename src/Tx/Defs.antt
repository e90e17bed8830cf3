-- ===== src/Tx/Defs.antt =====
-- Transactions: how a body of statements ends, and what stays of its writes.
use binno_pta_2026_evaluatio.Prelude.{Result, ok, err, M}
use binno_pta_2026_evaluatio.Db.{Db}

-- A body that returns no error may still leave without `Commit`, which undoes its writes.
pub data Ending (A : Type 0) : Type 0 where
  commit : A → Ending A
  rollback : A → Ending A

abbrev pub Tx : Type 0 → Type 0 → Type 0
Tx E A = M Db E A

-- What the caller sees, and the database afterwards.
abbrev pub run_tx : {E A : Type 0} → Tx E (Ending A) → Db → Result E A × Db
run_tx body db = elim (body db) [
  | ok (commit a, db') ↦ (ok a, db')
  | ok (rollback a, db') ↦ (ok a, db)
  | err e ↦ (err e, db)
]
