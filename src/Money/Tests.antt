-- ===== src/Money/Tests.antt =====
-- Witnesses and tests for the money module.
use binno_pta_2026_evaluatio.Prelude.{◌≡◌, refl, false, none, some, [], ◌∷◌, arith, if◌then◌else◌}
use binno_pta_2026_evaluatio.Prelude.Int.{pos, negsuc, ◌*ℤ◌, is_int64}
use binno_pta_2026_evaluatio.Money.{
  multiply, apply_basis_points, is_positive_decimal, is_nonneg_decimal, nonneg_loop, positive_loop,
  coefficient, scale, round_half_up,
}
use binno_pta_2026_evaluatio.Money.Rounding.{nearest_ℤ, round_half_up-nearest}

-- "2.5" pieces at 3 tiyin.
multiply_half : multiply (b'2' ∷ b'.' ∷ b'5' ∷ []) (pos 3) ≡ some (pos 8)
unfolding multiply is_nonneg_decimal nonneg_loop coefficient scale round_half_up ◌*ℤ◌
multiply_half = refl

negative_half : apply_basis_points (negsuc 0) (pos 5000) ≡ some (negsuc 0)
unfolding apply_basis_points round_half_up ◌*ℤ◌
negative_half = refl

trailing_dot : is_positive_decimal (b'2' ∷ b'.' ∷ []) ≡ false
unfolding is_positive_decimal positive_loop
trailing_dot = refl

round_half_up-nearest_example :
    round_half_up (negsuc 24) 10
    ≡ (if is_int64 (nearest_ℤ (negsuc 24) 10) then some (nearest_ℤ (negsuc 24) 10) else none)
round_half_up-nearest_example = round_half_up-nearest (negsuc 24) 10 (omega arith)
