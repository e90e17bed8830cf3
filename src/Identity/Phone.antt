-- ===== src/Identity/Phone.antt =====
-- `NormalizePhone` of internal/modules/identity/service.go.
use Prim.Native.Char.{code}
use text.Mathlib.TextEquality.{Char-path}
use binno_pta_2026_evaluatio.Prelude.{
  ℕ, suc, ◌≡◌, ◌↔◌, refl, sym, ap, subst, ◌∙◌, Bool, true, false, ◌&&◌, Option, none, some, String,
  if◌then◌else◌, ◌==◌, arith, Bool-cases, ◌⊎◌, inl, inr,
}
use binno_pta_2026_evaluatio.Money.{is_digit}

-- The characters that `nonDigits` leaves; the spaces that `TrimSpace` takes are among the others.
pub digits_of : String → String
digits_of String.[] = String.[]
digits_of (String.◌∷◌ c s) = if is_digit (code c) then String.◌∷◌ c (digits_of s) else digits_of s

-- The length of a text of ASCII characters.
abbrev pub text_length : String → ℕ
text_length String.[] = 0
text_length (String.◌∷◌ c s) = suc (text_length s)

abbrev pub all_digits : String → Bool
all_digits String.[] = true
all_digits (String.◌∷◌ c s) = is_digit (code c) && all_digits s

-- A text that starts with this character, and is over after it as told.
abbrev starts : ℕ → (String → Bool) → String → Bool
starts a rest String.[] = false
starts a rest (String.◌∷◌ c s) = (code c == a) && rest s

-- `phonePattern`.
unfoldable pub is_phone : String → Bool
is_phone = starts b'9' (starts b'9' (starts b'8' (λ s. (text_length s == 9) && all_digits s)))

-- `"998" + d`, and the number as it is dialled within the country.
abbrev pub with_998 : String → String
with_998 d = String.◌∷◌ "9" (String.◌∷◌ "9" (String.◌∷◌ "8" d))

abbrev pub with_zero : String → String
with_zero d = String.◌∷◌ "0" d

abbrev pub without_zero : String → String → String
without_zero d String.[] = d
without_zero d (String.◌∷◌ c s) = if code c == b'0' then with_998 s else d

-- The `switch` on the number of digits.
unfoldable pub widened : String → String
widened d =
    if text_length d == 9 then with_998 d else if text_length d == 10 then without_zero d d else d

-- `NormalizePhone`; `none` is `ErrInvalidPhone`.
unfoldable pub normalize_phone : String → Option String
unfolding digits_of widened is_phone
normalize_phone raw = let d = widened (digits_of raw) in if is_phone d then some d else none

digits_of-all : (s : String) → all_digits s ≡ true → digits_of s ≡ s
unfolding digits_of
digits_of-all String.[] h = refl
digits_of-all (String.◌∷◌ c s) h = ground (arith, digits_of-all s)

is_phone-digits : (p : String) → is_phone p ≡ true → (all_digits p ≡ true) × (text_length p ≡ 12)
unfolding is_phone
is_phone-digits String.[] h = cc
is_phone-digits (String.◌∷◌ a String.[]) h = ground arith
is_phone-digits (String.◌∷◌ a (String.◌∷◌ b String.[])) h = ground arith
is_phone-digits (String.◌∷◌ a (String.◌∷◌ b (String.◌∷◌ c s))) h = ground arith

widened-phone : (p : String) → is_phone p ≡ true → widened p ≡ p
unfolding widened
widened-phone p h = let (_, long) = is_phone-digits p h in ground (arith, long)

widened-national : (d : String) → text_length d ≡ 9 → widened d ≡ with_998 d
unfolding widened
widened-national d long = ground (arith, long)

widened-dialled : (d : String) → text_length d ≡ 9 → widened (with_zero d) ≡ with_998 d
unfolding widened
widened-dialled d long = ground (arith, long)

normalize_phone-form :
    (raw p : String)
    → normalize_phone raw ≡ some p
    → (p ≡ widened (digits_of raw)) × (is_phone p ≡ true)
unfolding normalize_phone
normalize_phone-form raw p h = elim (Bool-cases (is_phone (widened (digits_of raw)))) [
  | inl good ↦ (ground (arith, good), ground (arith, good))
  | inr bad ↦ ground (arith, bad)
]

normalize_phone-digits :
    (raw p : String)
    → widened (digits_of raw) ≡ p
    → is_phone p ≡ true
    → normalize_phone raw ≡ some p
unfolding normalize_phone
normalize_phone-digits raw p e h = rw e (rw h refl)

is_phone-national :
    (d : String) → all_digits d ≡ true → text_length d ≡ 9 → is_phone (with_998 d) ≡ true
unfolding is_phone
is_phone-national d digits long = ground (arith, digits, long)

-- The digits of an input spell a stored form: nine digits with 998 before them, without, or after a 0.
abbrev pub Spells : String → String → Type 0
Spells digits p =
    (d : String) × (all_digits d ≡ true)
    × (text_length d ≡ 9)
    × (p ≡ with_998 d)
    × ((digits ≡ d) ⊎ (digits ≡ with_zero d) ⊎ (digits ≡ with_998 d))

national-digits :
    (d : String) → is_phone (with_998 d) ≡ true → (all_digits d ≡ true) × (text_length d ≡ 9)
unfolding is_phone
national-digits d h = (ground arith, ground arith)

-- A text that matches the pattern is spelled out with its 998.
is_phone-national_of : (p : String) → is_phone p ≡ true → (d : String) × (p ≡ with_998 d)
unfolding is_phone
is_phone-national_of String.[] h = cc
is_phone-national_of (String.◌∷◌ a String.[]) h = absurd (ground arith)
is_phone-national_of (String.◌∷◌ a (String.◌∷◌ b String.[])) h = absurd (ground arith)
is_phone-national_of (String.◌∷◌ a (String.◌∷◌ b (String.◌∷◌ c s))) h =
    let first : code a ≡ b'9' = ground arith in
    let second : code b ≡ b'9' = ground arith in
    let third : code c ≡ b'8' = ground arith in
    (s, rw (Char-path a "9" first, Char-path b "9" second, Char-path c "8" third) refl)

dialled :
    (d e : String)
    → is_phone (without_zero d e) ≡ true
    → text_length d ≡ 10
    → (s : String) × (without_zero d e ≡ with_998 s) × (e ≡ with_zero s)
dialled d String.[] h long = absurd (ground (arith, is_phone-digits d))
dialled d (String.◌∷◌ c s) h long = elim (Bool-cases (code c == b'0')) [
  | inl zero_first ↦
      let first : code c ≡ b'0' = ground (arith, zero_first) in
      (s, ground (arith, zero_first), ap (λ x. String.◌∷◌ x s) (Char-path c "0" first))
  | inr other ↦ absurd (ground (arith, other, is_phone-digits d))
]

Spells-widened : (d : String) → is_phone (widened d) ≡ true → Spells d (widened d)
unfolding widened
Spells-widened d h = elim (Bool-cases (text_length d == 9)) [
  | inl nine ↦
      let (digits, long) = national-digits d (ground (arith, nine)) in
      (d, digits, long, ground (arith, nine), inl refl)
  | inr not_nine ↦ elim (Bool-cases (text_length d == 10)) [
    | inl ten ↦
        let (s, same, zero_first) =
          dialled d d (ground (arith, not_nine, ten)) (ground (arith, ten)) in
        let (digits, long) = national-digits s (ground (arith, not_nine, ten, same)) in
        (s, digits, long, ground (arith, not_nine, ten, same), inr (inl zero_first))
    | inr not_ten ↦
        let (s, same) = is_phone-national_of d (ground (arith, not_nine, not_ten)) in
        let (digits, long) = national-digits s (ground (arith, not_nine, not_ten, same)) in
        (s, digits, long, ground (arith, not_nine, not_ten, same), inr (inr same))
  ]
]

widened-spelled : (digits p : String) → Spells digits p → (widened digits ≡ p) × (is_phone p ≡ true)
widened-spelled digits p (d, all, long, same, spelled) =
    let phone = is_phone-national d all long in (by_form spelled ∙ sym same, rw same phone)
  where
    by_form :
        (digits ≡ d) ⊎ (digits ≡ with_zero d) ⊎ (digits ≡ with_998 d) → widened digits ≡ with_998 d
    by_form (inl e) = ap widened e ∙ widened-national d long
    by_form (inr (inl e)) = ap widened e ∙ widened-dialled d long
    by_form (inr (inr e)) = ap widened e ∙ widened-phone (with_998 d) (is_phone-national d all long)

-- `NormalizePhone` answers a text exactly when that text is 998 and nine digits, and the digits of the
-- input are these nine, alone, after a 0, or after 998.
pub normalize_phone_iff :
    (raw p : String) → (normalize_phone raw ≡ some p) ↔ Spells (digits_of raw) p
normalize_phone_iff raw p = (forth, back)
  where
    forth : normalize_phone raw ≡ some p → Spells (digits_of raw) p
    forth h =
        let (same, phone) = normalize_phone-form raw p h in
        subst (Spells (digits_of raw)) (sym same)
          (Spells-widened (digits_of raw) (subst (λ x. is_phone x ≡ true) same phone))

    back : Spells (digits_of raw) p → normalize_phone raw ≡ some p
    back spelled =
        let (same, phone) = widened-spelled (digits_of raw) p spelled in
        normalize_phone-digits raw p same phone
