-- ===== src/Billing/Settlement/Commission.antt =====
-- The commission ledger under `AccrueCommission` of internal/modules/billing/settlement.go.
use binno_pta_2026_evaluatio.Prelude.{
  ℕ, suc, ◌≤◌, ◌≡◌, Bool, ◌&&◌, some, List, [], ◌∷◌, arith, leb, ok, count_rows, All, if◌then◌else◌,
  Option-cases, inl, inr,
}
use binno_pta_2026_evaluatio.Prelude.Int.{ℤ, pos, ◌+ℤ◌, ◌-ℤ◌, ◌≤ℤ◌, ltb_ℤ}
use binno_pta_2026_evaluatio.Db.{Db, Driver, LedgerEntry}
use binno_pta_2026_evaluatio.Billing.Settlement.{
  CommissionRequest, CommissionAccrued, accrue_commission, founding_free_orders, is_entry_of_owner,
  is_entry_of_order,
}

-- The constraints of billing.commission_ledger: the three sums agree and none is negative.
abbrev pub IsBalanced : LedgerEntry → Type 0
IsBalanced e =
    (pos 0 ≤ℤ e.discount)
    × (pos 0 ≤ℤ e.payable)
    × (e.payable +ℤ e.discount ≡ e.accrued)
    × (e.accrued ≤ℤ e.base_amount)

abbrev pub is_discounted : ℕ → LedgerEntry → Bool
is_discounted owner e = is_entry_of_owner owner e && ltb_ℤ (pos 0) e.discount

-- The ledger: balanced entries, one for each order at most, and at most the founding number of
-- them discounted for each owner.
pub record IsLedger (db : Db) : Type 0 where
  pub balanced : All IsBalanced db.ledger
  pub single : (order : ℕ) → count_rows (is_entry_of_order order) db.ledger ≤ 1
  pub founding : (owner : ℕ) → count_rows (is_discounted owner) db.ledger ≤ founding_free_orders

-- The entry of a request, whose owner had a number of entries.
abbrev pub entry_of : ℕ → ℕ → ℕ → CommissionRequest → LedgerEntry
entry_of order owner completed request = record {
  order_id = order;
  owner_id = owner;
  base_amount = request.base_amount;
  rate_bps = request.rate_bps;
  accrued = request.accrued;
  discount = if leb (suc completed) founding_free_orders then request.accrued else pos 0;
  payable =
      request.accrued
      -ℤ (if leb (suc completed) founding_free_orders then request.accrued else pos 0);
  created_at = request.at;
}

-- What a successful accrual did.
pub record Accrued (d : Driver) (request : CommissionRequest) (db : Db) (r : CommissionAccrued)
    (db' : Db) : Type 0 where
  pub order : ℕ
  pub owner : ℕ
  pub order_parsed : d.parse_uuid request.order_id ≡ some order
  pub owner_parsed : d.parse_uuid request.owner_id ≡ some owner
  pub first : count_rows (is_entry_of_order order) db.ledger ≡ 0
  pub nonneg : pos 0 ≤ℤ request.accrued
  pub within : request.accrued ≤ℤ request.base_amount
  pub sequence : r.sequence ≡ suc (count_rows (is_entry_of_owner owner) db.ledger)
  pub written : db' ≡ record db {
    ledger =
        entry_of order owner (count_rows (is_entry_of_owner owner) db.ledger) request ∷ db.ledger;
  }
  pub reported : r.payable +ℤ r.discount ≡ request.accrued

payable-discount :
    (a : ℤ)
    → pos 0 ≤ℤ a
    → (free : Bool) → (a -ℤ (if free then a else pos 0)) +ℤ (if free then a else pos 0) ≡ a
unfolding ◌-ℤ◌ ◌+ℤ◌
payable-discount a h free = ground arith

accrue-Accrued :
    (d : Driver) (request : CommissionRequest) (db : Db) {r : CommissionAccrued} {db' : Db}
    → accrue_commission d request db ≡ ok (r, db')
    → Accrued d request db r db'
unfolding accrue_commission
accrue-Accrued d request db {r = r} {db' = db'} h =
    elim (Option-cases (d.parse_uuid request.order_id)) [
      | inl malformed ↦ absurd (ground (arith, malformed))
      | inr (order, parsed) ↦ elim (Option-cases (d.parse_uuid request.owner_id)) [
        | inl malformed ↦ absurd (ground (arith, parsed, malformed))
        | inr (owner, owned) ↦
            (let free : Bool =
                leb (suc (count_rows (is_entry_of_owner owner) db.ledger)) founding_free_orders in
              let nonneg : pos 0 ≤ℤ request.accrued = ground (arith, parsed, owned) in
              record {
                order = order;
                owner = owner;
                order_parsed = parsed;
                owner_parsed = owned;
                first = ground (arith, parsed, owned);
                nonneg = nonneg;
                within = ground (arith, parsed, owned);
                sequence = ground (arith, parsed, owned);
                written = ground (arith, parsed, owned);
                reported =
                    ground (arith, parsed, owned, payable-discount request.accrued nonneg free);
              })
      ]
    ]

payable-nonneg : (a : ℤ) → pos 0 ≤ℤ a → (free : Bool) → pos 0 ≤ℤ (a -ℤ (if free then a else pos 0))
unfolding ◌-ℤ◌
payable-nonneg a h free = ground arith

entry_of-IsBalanced :
    (order owner completed : ℕ) (request : CommissionRequest)
    → pos 0 ≤ℤ request.accrued
    → request.accrued ≤ℤ request.base_amount
    → IsBalanced (entry_of order owner completed request)
entry_of-IsBalanced order owner completed request nonneg within = (
  ground (arith, nonneg),
  payable-nonneg request.accrued nonneg (leb (suc completed) founding_free_orders),
  payable-discount request.accrued nonneg (leb (suc completed) founding_free_orders),
  within,
)

discounted-le :
    (owner : ℕ) (es : List LedgerEntry)
    → count_rows (is_discounted owner) es ≤ count_rows (is_entry_of_owner owner) es
discounted-le owner [] = ground arith
discounted-le owner (e ∷ es) = ground (arith, discounted-le owner es)

single_after :
    (order owner completed j : ℕ) (request : CommissionRequest) (es : List LedgerEntry)
    → count_rows (is_entry_of_order order) es ≡ 0
    → count_rows (is_entry_of_order j) es ≤ 1
    → count_rows (is_entry_of_order j) (entry_of order owner completed request ∷ es) ≤ 1
single_after order owner completed j request es free single = ground arith

founding_after :
    (order owner j : ℕ) (request : CommissionRequest) (es : List LedgerEntry)
    → count_rows (is_discounted j) es ≤ founding_free_orders
    → count_rows
        (is_discounted j)
        (entry_of order owner (count_rows (is_entry_of_owner owner) es) request ∷ es)
      ≤ founding_free_orders
founding_after order owner j request es few = ground (arith, few, discounted-le owner es)

Accrued-IsLedger :
    (d : Driver) (request : CommissionRequest) (db db' : Db) (r : CommissionAccrued)
    → IsLedger db
    → Accrued d request db r db'
    → IsLedger db'
Accrued-IsLedger d request db db' r l a =
    let completed : ℕ = count_rows (is_entry_of_owner a.owner) db.ledger in
    rw a.written (record {
      balanced =
          (entry_of-IsBalanced a.order a.owner completed request a.nonneg a.within, l.balanced);
      single = λ j. single_after a.order a.owner completed j request db.ledger a.first (l.single j);
      founding = λ j. founding_after a.order a.owner j request db.ledger (l.founding j);
    })

-- A successful accrual writes one ledger entry, for an order that had none. The answer's sequence
-- is one more than the owner's entries, and what it reports payable and discounted adds up to the
-- accrued sum. A well-formed ledger stays so: entries balance, an order has one entry at most, and
-- an owner has at most ten discounted ones.
pub accrue_commission_lem :
    (d : Driver) (request : CommissionRequest) (db : Db) {r : CommissionAccrued} {db' : Db}
    → IsLedger db
    → accrue_commission d request db ≡ ok (r, db')
    → Accrued d request db r db' × IsLedger db'
accrue_commission_lem d request db {r = r} {db' = db'} l h =
    let a = accrue-Accrued d request db {r = r} {db' = db'} h in
    (a, Accrued-IsLedger d request db db' r l a)
