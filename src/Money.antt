-- ===== src/Money.antt =====
-- internal/platform/money/money.go: exact arithmetic on integer tiyin amounts. `big.Rat` and
-- `big.Int` are fractions and integers without bounds; a failed conversion
-- (`ErrNotRepresentable`) is `none`. Quantities are texts, walked byte by byte: a byte of a
-- character outside ASCII is neither a digit nor a dot, so the walk by runes answers the same.
pub mod Decimal
pub mod Rounding
mod Tests
use binno_pta_2026_evaluatio.Prelude.{
  ℕ, suc, ◌+◌, ◌-◌, ◌*◌, ◌/◌, ◌%◌, ◌^◌, Bool, true, false, not, ◌&&◌, ◌||◌, Option, none, some,
  List, [], ◌∷◌, length, ltb, leb, ◌==◌, if◌then◌else◌,
}
use binno_pta_2026_evaluatio.Prelude.Int.{
  ℤ, pos, negsuc, pos_part, neg_part, sub_ℕ, ◌+ℤ◌, ◌-ℤ◌, ◌*ℤ◌, ltb_ℤ, is_int64,
}

abbrev pub is_digit : ℕ → Bool
is_digit c = leb b'0' c && leb c b'9'

-- The loop of `IsNonNegativeDecimal` over the bytes that are left; `n` is `len(value)`.
unfoldable pub nonneg_loop : ℕ → ℕ → Bool → List ℕ → Bool
nonneg_loop n i seen_dot [] = true
nonneg_loop n i seen_dot (c ∷ cs) = elim (is_digit c) [
  | true ↦ nonneg_loop n (i + 1) seen_dot cs
  | false ↦ elim ((c == b'.') && not (seen_dot || (i == 0 || i == n - 1))) [
    | true ↦ nonneg_loop n (i + 1) true cs
    | false ↦ false
  ]
]

unfoldable pub is_nonneg_decimal : List ℕ → Bool
is_nonneg_decimal [] = false
is_nonneg_decimal (c ∷ cs) = nonneg_loop (length (c ∷ cs)) 0 false (c ∷ cs)

-- The loop of `IsPositiveDecimal`.
unfoldable pub positive_loop : ℕ → ℕ → Bool → Bool → List ℕ → Bool
positive_loop n i seen_dot non_zero [] = non_zero
positive_loop n i seen_dot non_zero (c ∷ cs) = elim (is_digit c) [
  | true ↦ positive_loop n (i + 1) seen_dot (non_zero || not (c == b'0')) cs
  | false ↦ elim ((c == b'.') && not (seen_dot || (i == 0 || i == n - 1))) [
    | true ↦ positive_loop n (i + 1) true non_zero cs
    | false ↦ false
  ]
]

unfoldable pub is_positive_decimal : List ℕ → Bool
is_positive_decimal [] = false
is_positive_decimal (c ∷ cs) = positive_loop (length (c ∷ cs)) 0 false false (c ∷ cs)

-- `Rat.SetString` on a text of digits with at most one dot: the digits as a number, and how many
-- of them stand behind the dot.
unfoldable pub coefficient : ℕ → List ℕ → ℕ
coefficient acc [] = acc
coefficient acc (c ∷ cs) = coefficient (if is_digit c then acc * 10 + (c - b'0') else acc) cs

unfoldable pub scale : List ℕ → ℕ
scale [] = 0
scale (c ∷ cs) = if is_digit c then scale cs else length cs

abbrev abs : ℤ → ℕ
abs a = pos_part a + neg_part a

-- `QuoRem`: the quotient is cut towards zero, and the remainder has the numerator's sign.
quo : ℤ → ℕ → ℤ
quo (pos n) d = pos (n / d)
quo (negsuc n) d = sub_ℕ 0 (suc n / d)

rem : ℤ → ℕ → ℤ
rem (pos n) d = pos (n % d)
rem (negsuc n) d = sub_ℕ 0 (suc n % d)

-- `quotient` after the test on the remainder. The fraction is not reduced first: a common factor
-- changes neither the quotient nor the outcome of the test.
rounded : ℤ → ℕ → ℤ
unfolding quo rem ◌+ℤ◌ ◌-ℤ◌
rounded num den =
    if leb den (2 * abs (rem num den))
    then (if ltb_ℤ num (pos 0) then quo num den -ℤ pos 1 else quo num den +ℤ pos 1)
    else quo num den

unfoldable pub round_half_up : ℤ → ℕ → Option ℤ
unfolding rounded is_int64
round_half_up num den = if is_int64 (rounded num den) then some (rounded num den) else none

-- `Multiply`.
unfoldable pub multiply : List ℕ → ℤ → Option ℤ
multiply quantity unit_price =
    if is_nonneg_decimal quantity
    then round_half_up (pos (coefficient 0 quantity) *ℤ unit_price) (10 ^ scale quantity)
    else none

-- `ApplyBasisPoints`; `bps` is an int32.
unfoldable pub apply_basis_points : ℤ → ℤ → Option ℤ
apply_basis_points amount bps =
    if ltb_ℤ bps (pos 0) then none else round_half_up (amount *ℤ bps) 10000
