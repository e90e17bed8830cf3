-- ===== src/Orders/Commission/Bounds.antt =====
-- The sums and rates of a commission in internal/modules/orders/repository.go.
use native.Mathlib.Nat.{div-eq_of_lt-le, div-lt_iff_lt-mul}
use binno_pta_2026_evaluatio.Prelude.{
  ℕ, ◌+◌, ◌*◌, ◌/◌, ◌^◌, ◌≤◌, ◌<◌, ◌≡◌, refl, ap, some, List, [], ◌∷◌, arith, All,
}
use binno_pta_2026_evaluatio.Prelude.Int.{
  ℤ, pos, negsuc, pos_part, ◌≤ℤ◌, ◌+ℤ◌, ◌*ℤ◌, wrap64, wrap32, wrap64-pos, +ℤ-pos, *ℤ-pos,
}
use binno_pta_2026_evaluatio.Money.{apply_basis_points}
use binno_pta_2026_evaluatio.Money.Rounding.{nearest, apply_basis_points-nearest}
use binno_pta_2026_evaluatio.Db.{OrderItem}
use binno_pta_2026_evaluatio.Orders.Commission.{accrue_lines, effective_rate_bps, max_rate_bps}

-- A stored line: no sum is negative, and the rate is at most 100 %.
abbrev pub IsPriced : OrderItem → Type 0
IsPriced i =
    (pos 0 ≤ℤ i.line_amount) × (pos 0 ≤ℤ i.commission_bps) × (i.commission_bps ≤ℤ max_rate_bps)

abbrev pub goods : List OrderItem → ℕ
goods [] = 0
goods (i ∷ is) = pos_part i.line_amount + goods is

-- The commission of each line, rounded to the nearest, in sum.
abbrev pub charges : List OrderItem → ℕ
charges [] = 0
charges (i ∷ is) = nearest (pos_part i.line_amount * pos_part i.commission_bps) 10000 + charges is

pos_part-pos : (a : ℤ) → pos 0 ≤ℤ a → a ≡ pos (pos_part a)
pos_part-pos (pos n) h = refl
pos_part-pos (negsuc n) h = ground arith

charge-IsPriced :
    (i : OrderItem)
    → IsPriced i
    → pos_part i.line_amount < 2 ^ 63
    → (apply_basis_points i.line_amount i.commission_bps
        ≡ some (pos (nearest (pos_part i.line_amount * pos_part i.commission_bps) 10000)))
      × (nearest (pos_part i.line_amount * pos_part i.commission_bps) 10000
          ≤ pos_part i.line_amount)
charge-IsPriced i (amount, rate, bound) h =
    rw (pos_part-pos i.line_amount amount, pos_part-pos i.commission_bps rate)
      (apply_basis_points-nearest (pos_part i.line_amount) (pos_part i.commission_bps) h
        (ground (arith, bound, rate)))

-- On lines that are priced, whose sums fit an int64 together with what is accrued already, the
-- loop adds the commission of each line rounded to the nearest tiyin; in sum that is at most the
-- goods.
pub accrue_lines_lem :
    (n : ℕ) (is : List OrderItem)
    → All IsPriced is
    → n + goods is < 2 ^ 63
    → (accrue_lines (pos n) is ≡ some (pos (n + charges is))) × (charges is ≤ goods is)
unfolding accrue_lines
accrue_lines_lem n [] all h = (ground arith, omega arith)
accrue_lines_lem n (i ∷ is) (priced, all) h =
    let (charged, small) = charge-IsPriced i priced (ground (arith, h)) in
    let charge : ℕ = nearest (pos_part i.line_amount * pos_part i.commission_bps) 10000 in
    let fits : n + charge + goods is < 2 ^ 63 = omega (arith, h, small) in
    let (rest, below) = accrue_lines_lem (n + charge) is all fits in
    let step : wrap64 (pos n +ℤ pos charge) ≡ pos (n + charge) =
      rw (+ℤ-pos n charge) (wrap64-pos (n + charge) (omega (arith, fits))) in
    (
      rw (accrue_lines, charged, step, rest) (ap (λ m. some (pos m)) (omega arith)),
      omega (arith, small, below),
    )

rate_bound :
    (base accrued : ℕ) → 0 < base → accrued ≤ base → (accrued * 10000 + base / 2) / base ≤ 10000
rate_bound base accrued p h =
    let lower : (accrued * 10000 + base / 2) / base < 10001 =
      (div-lt_iff_lt-mul p).1 (omega (arith, p, h)) in
    omega (arith, lower)

rate_of_zero : (base : ℕ) → 0 < base → (base / 2) / base ≡ 0
rate_of_zero base p = div-eq_of_lt-le base (omega (arith, p)) (omega (arith, p))

-- The two steps of the rate do not wrap.
rate_steps :
    (base accrued : ℕ)
    → accrued * 10000 + base / 2 < 2 ^ 63
    → wrap64 (wrap64 (pos accrued *ℤ max_rate_bps) +ℤ pos (base / 2))
      ≡ pos (accrued * 10000 + base / 2)
rate_steps base accrued fits =
    rw
      (
        *ℤ-pos accrued 10000,
        wrap64-pos (accrued * 10000) (omega (arith, fits)),
        +ℤ-pos (accrued * 10000) (base / 2),
      )
      (wrap64-pos (accrued * 10000 + base / 2) fits)

-- On sums that stay inside an int64 and with a commission of at most the base, the effective rate
-- is the quotient in basis points rounded half up, from 0, which it is for a small commission, to
-- 10000.
pub effective_rate_bps_lem :
    (base accrued : ℕ)
    → 0 < base
    → accrued ≤ base
    → accrued * 10000 + base / 2 < 2 ^ 63
    → (effective_rate_bps (pos base) (pos accrued) ≡ pos ((accrued * 10000 + base / 2) / base))
      × ((accrued * 10000 + base / 2) / base ≤ 10000)
unfolding effective_rate_bps wrap32
effective_rate_bps_lem base accrued p h fits =
    let bound = rate_bound base accrued p h in
    (ground (arith, p, bound, rate_steps base accrued fits, rate_of_zero base p), bound)
