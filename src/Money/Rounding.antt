-- ===== src/Money/Rounding.antt =====
-- What the roundings of internal/platform/money/money.go compute, and their bounds.
use native.Mathlib.Nat.{mod-lt, div-add-mod, div-eq_of_lt-le, div-lt_iff_lt-mul, pow-suc}
use binno_pta_2026_evaluatio.Prelude.{
  ℕ, zero, suc, ◌+◌, ◌*◌, ◌/◌, ◌%◌, ◌^◌, ◌≤◌, ◌<◌, ◌≡◌, ◌↔◌, Option, none, some, List, arith,
  if◌then◌else◌,
}
use binno_pta_2026_evaluatio.Prelude.Int.{ℤ, pos, negsuc, sub_ℕ, ◌*ℤ◌, is_int64, *ℤ-pos}
use binno_pta_2026_evaluatio.Money.{
  rounded, round_half_up, apply_basis_points, multiply, is_nonneg_decimal, coefficient, scale,
}

-- The number nearest to n / d, a half rounded up: written without a remainder.
unfoldable pub nearest : ℕ → ℕ → ℕ
nearest n d = (2 * n + d) / (2 * d)

-- The integer nearest to num / d, a half rounded away from zero.
unfoldable pub nearest_ℤ : ℤ → ℕ → ℤ
unfolding nearest
nearest_ℤ (pos n) d = pos (nearest n d)
nearest_ℤ (negsuc n) d = sub_ℕ 0 (nearest (suc n) d)

abbrev if_int64 : ℤ → Option ℤ
if_int64 a = if is_int64 a then some a else none

nearest_up : (n d : ℕ) → 0 < d → d ≤ 2 * (n % d) → nearest n d ≡ n / d + 1
unfolding nearest
nearest_up n d p h =
    div-eq_of_lt-le (2 * d) (omega (arith, div-add-mod n d, mod-lt n p))
      (omega (arith, div-add-mod n d, mod-lt n p))

nearest_down : (n d : ℕ) → 0 < d → 2 * (n % d) < d → nearest n d ≡ n / d
unfolding nearest
nearest_down n d p h =
    div-eq_of_lt-le (2 * d) (omega (arith, div-add-mod n d, mod-lt n p))
      (omega (arith, div-add-mod n d, mod-lt n p))

rounded-nearest : (num : ℤ) (d : ℕ) → 0 < d → rounded num d ≡ nearest_ℤ num d
unfolding rounded nearest_ℤ
rounded-nearest (pos n) d p = ground (arith, nearest_up n d p, nearest_down n d p)
rounded-nearest (negsuc n) d p =
    ground (arith, nearest_up (suc n) d p, nearest_down (suc n) d p, mod-lt (suc n) p)

-- For a positive denominator the rounding yields the nearest integer, a half away from zero, when
-- it lies in the int64 range, and fails otherwise.
pub round_half_up-nearest :
    (num : ℤ) (d : ℕ)
    → 0 < d
    → round_half_up num d ≡ (if is_int64 (nearest_ℤ num d) then some (nearest_ℤ num d) else none)
unfolding round_half_up
round_half_up-nearest num d p = rw (rounded-nearest num d p)

ten_pow_pos : (k : ℕ) → 0 < 10 ^ k
ten_pow_pos zero = omega arith
ten_pow_pos (suc k) = rw (pow-suc 10 k) (omega (arith, ten_pow_pos k))

nearest-le : (n d k : ℕ) → 0 < d → n ≤ k * d → nearest n d ≤ k
unfolding nearest
nearest-le n d k p h = nearest-lt (div-lt_iff_lt-mul {k = 2 * d} (omega arith))
  where
    nearest-lt :
        ((2 * n + d) / (2 * d) < suc k) ↔ (2 * n + d < suc k * (2 * d)) → (2 * n + d) / (2 * d) ≤ k
    nearest-lt e = omega (arith, e.1 (omega arith))

-- A commission of at most 100% on an amount in range is computed without error: it is the nearest
-- number of tiyin to amount * bps / 10000, a half rounded up, and never more than the amount.
pub apply_basis_points-nearest :
    (amount bps : ℕ)
    → amount < 2 ^ 63
    → bps ≤ 10000
    → (apply_basis_points (pos amount) (pos bps) ≡ some (pos (nearest (amount * bps) 10000)))
      × (nearest (amount * bps) 10000 ≤ amount)
unfolding apply_basis_points is_int64 nearest_ℤ
apply_basis_points-nearest amount bps h k =
    let small : nearest (amount * bps) 10000 ≤ amount =
      nearest-le (amount * bps) 10000 amount (omega arith) (grind arith) in
    (
      rw (*ℤ-pos amount bps)
          (rw (round_half_up-nearest (pos (amount * bps)) 10000 (omega arith)) (ground arith)),
      small,
    )

-- A quantity in the grammar times a price is the nearest number of tiyin to the exact product, a
-- half away from zero, or an error where that leaves the int64 range; any other text is an error.
pub multiply-nearest :
    (quantity : List ℕ) (unit_price : ℤ)
    → multiply quantity unit_price ≡ (
        if is_nonneg_decimal quantity
        then (let amount =
              nearest_ℤ (pos (coefficient 0 quantity) *ℤ unit_price) (10 ^ scale quantity) in
            if is_int64 amount then some amount else none)
        else none)
unfolding multiply
multiply-nearest quantity unit_price = rw (
    round_half_up-nearest (pos (coefficient 0 quantity) *ℤ unit_price) (10 ^ scale quantity)
      (ten_pow_pos (scale quantity)))
