-- ===== src/Money/Decimal.antt =====
-- What texts internal/platform/money/money.go takes for quantities: a grammar, and the loops
-- against it.
use binno_pta_2026_evaluatio.Prelude.{
  ℕ, ◌+◌, ◌-◌, ◌*◌, ◌<◌, ◌≡◌, refl, ◌↔◌, inl, inr, Bool, true, false, not, ◌&&◌, ◌||◌, List, [],
  ◌∷◌, arith, length, ltb, ◌==◌, Bool-cases,
}
use binno_pta_2026_evaluatio.Money.{
  is_digit, nonneg_loop, is_nonneg_decimal, positive_loop, is_positive_decimal, coefficient,
}

-- One or more digits.
pub data IsDigits : List ℕ → Type 0 where
  one : {c : ℕ} → is_digit c ≡ true → IsDigits (c ∷ [])
  more : {c : ℕ} {cs : List ℕ} → is_digit c ≡ true → IsDigits cs → IsDigits (c ∷ cs)

-- What may follow the first digit: digits, and then perhaps a dot with one or more digits.
pub data IsRest : List ℕ → Type 0 where
  end : IsRest []
  digit : {c : ℕ} {cs : List ℕ} → is_digit c ≡ true → IsRest cs → IsRest (c ∷ cs)
  dot : {c : ℕ} {cs : List ℕ} → c ≡ b'.' → IsDigits cs → IsRest (c ∷ cs)

pub data IsDecimal : List ℕ → Type 0 where
  start : {c : ℕ} {cs : List ℕ} → is_digit c ≡ true → IsRest cs → IsDecimal (c ∷ cs)

dot-not_digit : (c : ℕ) → c ≡ b'.' → is_digit c ≡ false
dot-not_digit c e = ground arith

-- Behind the dot only digits pass.
after_dot :
    (n i : ℕ) (c : ℕ) (cs : List ℕ) → nonneg_loop n i true (c ∷ cs) ≡ true → IsDigits (c ∷ cs)
unfolding nonneg_loop
after_dot n i c [] h = elim (Bool-cases (is_digit c)) [
  | inl d ↦ one d
  | inr e ↦ absurd (ground arith)
]
after_dot n i c (c' ∷ cs) h = elim (Bool-cases (is_digit c)) [
  | inl d ↦ more d (after_dot n (i + 1) c' cs (ground arith))
  | inr e ↦ absurd (ground arith)
]

IsDigits-loop : (n i : ℕ) {cs : List ℕ} → IsDigits cs → nonneg_loop n i true cs ≡ true
unfolding nonneg_loop
IsDigits-loop n i (one d) = ground arith
IsDigits-loop n i (more d ds) = ground (arith, IsDigits-loop n (i + 1) ds)

loop-IsRest :
    (n i : ℕ) (cs : List ℕ)
    → 0 < i
    → i + length cs ≡ n
    → nonneg_loop n i false cs ≡ true
    → IsRest cs
unfolding nonneg_loop
loop-IsRest n i [] p e h = end
loop-IsRest n i (c ∷ []) p e h = elim (Bool-cases (is_digit c)) [
  | inl d ↦ digit d end
  | inr x ↦ absurd (ground arith)
]
loop-IsRest n i (c ∷ c' ∷ cs) p e h = elim (Bool-cases (is_digit c)) [
  | inl d ↦ digit d (loop-IsRest n (i + 1) (c' ∷ cs) (omega arith) (omega arith) (ground arith))
  | inr x ↦ dot (ground arith) (after_dot n (i + 1) c' cs (ground arith))
]

IsDigits-nonempty : {cs : List ℕ} → IsDigits cs → 0 < length cs
IsDigits-nonempty (one d) = omega arith
IsDigits-nonempty (more d ds) = omega arith

IsRest-loop :
    (n i : ℕ) {cs : List ℕ}
    → 0 < i
    → i + length cs ≡ n
    → IsRest cs
    → nonneg_loop n i false cs ≡ true
unfolding nonneg_loop
IsRest-loop n i p e end = refl
IsRest-loop n i p e (digit {cs = cs} d r) =
    ground (arith, IsRest-loop n (i + 1) {cs = cs} (omega arith) (omega arith) r)
IsRest-loop n i p e (dot {c = c} d ds) =
    ground (arith, dot-not_digit c d, IsDigits-loop n (i + 1) ds, IsDigits-nonempty ds)

loop-IsDecimal : (s : List ℕ) → is_nonneg_decimal s ≡ true → IsDecimal s
unfolding is_nonneg_decimal nonneg_loop
loop-IsDecimal [] h = cc
loop-IsDecimal (c ∷ cs) h = elim (Bool-cases (is_digit c)) [
  | inl d ↦ start d (loop-IsRest (length (c ∷ cs)) 1 cs (omega arith) (omega arith) (ground arith))
  | inr x ↦ absurd (ground arith)
]

IsDecimal-loop : {s : List ℕ} → IsDecimal s → is_nonneg_decimal s ≡ true
unfolding is_nonneg_decimal nonneg_loop
IsDecimal-loop (start {c = c} {cs = cs} d r) =
    ground (arith, IsRest-loop (length (c ∷ cs)) 1 (omega arith) (omega arith) r)

-- `IsNonNegativeDecimal` accepts exactly the texts of the grammar: digits, at most one dot, and a
-- digit on both sides of it.
pub is_nonneg_decimal_iff : (s : List ℕ) → (is_nonneg_decimal s ≡ true) ↔ IsDecimal s
is_nonneg_decimal_iff s = (loop-IsDecimal s, IsDecimal-loop)

positive_loop_lem :
    (n i : ℕ) (seen non_zero : Bool) (acc : ℕ) (cs : List ℕ)
    → non_zero ≡ ltb 0 acc
    → positive_loop n i seen non_zero cs ≡ (nonneg_loop n i seen cs && ltb 0 (coefficient acc cs))
unfolding positive_loop nonneg_loop coefficient
positive_loop_lem n i seen nz acc [] e = e
positive_loop_lem n i seen nz acc (c ∷ cs) e = ground (
  arith,
  positive_loop_lem n (i + 1) seen (nz || not (c == b'0')) (acc * 10 + (c - b'0')) cs,
  positive_loop_lem n (i + 1) true nz acc cs,
)

-- `IsPositiveDecimal` accepts exactly the texts of the grammar whose digits make a number greater
-- than zero.
pub is_positive_decimal_iff :
    (s : List ℕ) → (is_positive_decimal s ≡ true) ↔ (IsDecimal s × (0 < coefficient 0 s))
unfolding is_positive_decimal is_nonneg_decimal
is_positive_decimal_iff [] = (λ h. cc, λ h. absurd (ground (arith, IsDecimal-loop h.0)))
is_positive_decimal_iff (c ∷ cs) =
    let same = positive_loop_lem (length (c ∷ cs)) 0 false false 0 (c ∷ cs) refl in
    (
      λ h. (loop-IsDecimal (c ∷ cs) (ground (arith, same)), ground (arith, same)),
      λ h. ground (arith, same, IsDecimal-loop h.0),
    )
