-- ===== src/Orders/Repository/Once.antt =====
-- One effect for each operation key: the second `Apply` of internal/modules/orders/repository.go
-- under the same key.
use text.Mathlib.TextPositions.{eq_refl}
use binno_pta_2026_evaluatio.Prelude.{
  ℕ, ◌≡◌, ◌≢◌, false, none, some, String, arith, Result, ok, err, subst, Option-cases, Bool-cases,
  inl, inr, if◌then◌else◌, ◌==◌,
}
use binno_pta_2026_evaluatio.Db.{Db, Driver}
use binno_pta_2026_evaluatio.Tx.Dedup.{is_bad_key, nullable_uuid, add_receipt, reserve_for_lem}
use binno_pta_2026_evaluatio.Orders.Status.{transition_for}
use binno_pta_2026_evaluatio.Orders.Errors.{Error, conflict}
use binno_pta_2026_evaluatio.Orders.Repository.{TransitionCommand, apply, apply_body, apply_claimed}
use binno_pta_2026_evaluatio.Orders.Repository.Replay.{IsBound, IsApplied, apply_lem}

-- What the second use of a key answers.
abbrev pub replay_answer : ℕ → ℕ → Result Error (Unit {0})
replay_answer id other = if id == other then ok tt else err conflict

apply_bound :
    (d : Driver) (key : String) (id other : ℕ) (cmd : TransitionCommand) (db : Db)
    → is_bad_key key ≡ false
    → IsBound key id db
    → transition_for cmd.trigger ≢ none
    → d.parse_uuid cmd.order_id ≡ some other
    → apply d key cmd db ≡ (replay_answer id other, db)
unfolding apply apply_body apply_claimed
apply_bound d key id other cmd db filled (r, bound, same) known parsed =
    elim (Option-cases (transition_for cmd.trigger)) [
      | inl unknown ↦ absurd (known unknown)
      | inr (t, found) ↦
          ground (arith, filled, bound, same, parsed, found, reserve_for_lem key other cmd.at db)
    ]

add_receipt-IsBound :
    (key : String) (id at : ℕ) (db : Db) → IsBound key id (add_receipt key id at db)
add_receipt-IsBound key id at db = (
  record { operation_key = key; resource_id = nullable_uuid id; created_at = at },
  ground (arith, eq_refl key),
  ground arith,
)

IsApplied-IsBound :
    (key : String) (id : ℕ) (cmd : TransitionCommand) (db db' : Db)
    → IsApplied key id cmd db db'
    → IsBound key id db'
IsApplied-IsBound key id cmd db db' (inl (bound, same)) = rw same bound
IsApplied-IsBound key id cmd db db' (inr (_, changed)) =
    let (_, _, _, ran) = changed in
    let (r, bound, same) = add_receipt-IsBound key id cmd.at db in (r, rw ran.receipts bound, same)

apply-key_filled :
    (d : Driver) (key : String) (cmd : TransitionCommand) (db : Db) {db' : Db}
    → apply d key cmd db ≡ (ok tt, db')
    → is_bad_key key ≡ false
unfolding apply apply_body
apply-key_filled d key cmd db {db' = db'} h = elim (Bool-cases (is_bad_key key)) [
  | inr filled ↦ filled
  | inl empty ↦ elim (Option-cases (transition_for cmd.trigger)) [
    | inl unknown ↦ absurd (ground (arith, unknown))
    | inr (t, known) ↦ elim (Option-cases (d.parse_uuid cmd.order_id)) [
      | inl malformed ↦ absurd (ground (arith, known, malformed))
      | inr (id, parsed) ↦
          absurd (ground (arith, known, parsed, empty, reserve_for_lem key id cmd.at db))
    ]
  ]
]

-- After an `Apply` succeeded under a key, an `Apply` of any known trigger under the same key
-- changes no table: it reports success for the same order, and a conflict for any other.
pub apply_once :
    (d : Driver) (key : String) (cmd again : TransitionCommand) (db : Db) (id other : ℕ) {db' : Db}
    → apply d key cmd db ≡ (ok tt, db')
    → d.parse_uuid cmd.order_id ≡ some id
    → transition_for again.trigger ≢ none
    → d.parse_uuid again.order_id ≡ some other
    → apply d key again db' ≡ (replay_answer id other, db')
apply_once d key cmd again db id other {db' = db'} h parsed known parsed_again =
    let (id2, parsed2, applied) = apply_lem d key cmd db {db' = db'} h in
    apply_bound d key id other again db' (apply-key_filled d key cmd db {db' = db'} h)
      (subst (λ i. IsBound key i db') (ground (arith, parsed, parsed2))
        (IsApplied-IsBound key id2 cmd db db' applied))
      known parsed_again
