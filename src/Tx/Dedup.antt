-- ===== src/Tx/Dedup.antt =====
-- internal/platform/database/dedup/receipt.go: at most one effect for each operation key.
use binno_pta_2026_evaluatio.Prelude.{
  ℕ, suc, ltb, ◌≡◌, Bool, true, false, Option, none, some, ◌∷◌, String, str_eq, ◌==◌, arith, ok,
  err, throw, pure, ◌>>=◌, find_row, if◌then◌else◌, ◌⊎◌, inl, inr, Option-cases,
}
use binno_pta_2026_evaluatio.Db.{Db, Receipt}
use binno_pta_2026_evaluatio.Tx.Defs.{Tx}

-- `ErrKeyReuse`, and the error on an empty key or on a row that the table refuses.
pub data DedupError : Type 0 where
  key_reuse key_required : DedupError

-- `nullableUUID`; the nil id is 0.
abbrev pub nullable_uuid : ℕ → Option ℕ
nullable_uuid id = if id == 0 then none else some id

abbrev pub stored_uuid : Option ℕ → ℕ
stored_uuid none = 0
stored_uuid (some id) = id

abbrev pub has_key : String → Receipt → Bool
has_key key r = str_eq r.operation_key key

-- The rows after `INSERT … ON CONFLICT DO NOTHING` found the key free.
abbrev pub add_receipt : String → ℕ → ℕ → Db → Db
add_receipt key id at db = record db {
  receipts =
      (record { operation_key = key; resource_id = nullable_uuid id; created_at = at })
      ∷ db.receipts;
}

-- How many characters a text has.
abbrev characters : String → ℕ
characters String.[] = 0
characters (String.◌∷◌ c s) = suc (characters s)

-- An empty key, and one that breaks the CHECK on platform.mutation_receipts.
abbrev pub is_bad_key : String → Bool
is_bad_key key = if str_eq key "" then true else ltb 512 (characters key)

claim_row : String → ℕ → ℕ → Option Receipt → Tx DedupError (ℕ × Bool)
claim_row key id at none db = ok ((id, true), add_receipt key id at db)
claim_row key id at (some r) db = ok ((stored_uuid r.resource_id, false), db)

-- `claim`: the resource that the key is bound to, and whether this call bound it.
unfoldable pub claim : String → ℕ → ℕ → Tx DedupError (ℕ × Bool)
unfolding claim_row
claim key id at db =
    if is_bad_key key
    then err key_required
    else claim_row key id at (find_row (has_key key) db.receipts) db

-- `ReserveNew`: whether this is a replay, and the resource.
unfoldable pub reserve_new : String → ℕ → ℕ → Tx DedupError (Bool × ℕ)
unfolding claim
reserve_new key id at = do
  (stored, claimed) ← claim key id at
  if claimed then pure (false, id) else pure (true, stored)

-- `ReserveFor`: whether this is a replay.
unfoldable pub reserve_for : String → ℕ → ℕ → Tx DedupError Bool
unfolding claim
reserve_for key id at = do
  (stored, claimed) ← claim key id at
  if claimed then pure false else if stored == id then pure true else throw key_reuse

-- A free key is bound to the resource; a bound one is a replay of the same resource, and refused
-- for another; a bad one is refused.
pub reserve_for_lem :
    (key : String) (id at : ℕ) (db : Db)
    → reserve_for key id at db ≡ (
        if is_bad_key key then err key_required else elim (find_row (has_key key) db.receipts) [
          | none ↦ ok (false, add_receipt key id at db)
          | some r ↦ if stored_uuid r.resource_id == id then ok (true, db) else err key_reuse
        ])
unfolding reserve_for
reserve_for_lem key id at db = ground arith

-- A reservation writes receipts only.
pub reserve_for-frame :
    (key : String) (id at : ℕ) (db : Db) {replay : Bool} {db' : Db}
    → reserve_for key id at db ≡ ok (replay, db')
    → db' ≡ record db { receipts = db'.receipts }
reserve_for-frame key id at db h = elim (Option-cases (find_row (has_key key) db.receipts)) [
  | inl free ↦ ground (arith, free, reserve_for_lem key id at db)
  | inr (r, bound) ↦ ground (arith, bound, reserve_for_lem key id at db)
]

-- A free key is bound to the new resource; a bound one answers the resource that it is bound to.
pub reserve_new-ok :
    (key : String) (id at : ℕ) (db : Db) {replay : Bool} {existing : ℕ} {db' : Db}
    → reserve_new key id at db ≡ ok ((replay, existing), db')
    → (is_bad_key key ≡ false)
      × (((find_row (has_key key) db.receipts ≡ none)
            × (replay ≡ false)
            × (existing ≡ id)
            × (db' ≡ add_receipt key id at db))
          ⊎ ((r : Receipt) × (find_row (has_key key) db.receipts ≡ some r)
              × (replay ≡ true)
              × (existing ≡ stored_uuid r.resource_id)
              × (db' ≡ db)))
unfolding reserve_new
reserve_new-ok key id at db h = elim (Option-cases (find_row (has_key key) db.receipts)) [
  | inl free ↦ (
    ground (arith, free),
    inl (free, ground (arith, free), ground (arith, free), ground (arith, free)),
  )
  | inr (r, bound) ↦ (
    ground (arith, bound),
    inr (r, bound, ground (arith, bound), ground (arith, bound), ground (arith, bound)),
  )
]
