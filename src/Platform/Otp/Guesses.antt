-- ===== src/Platform/Otp/Guesses.antt =====
-- How many guesses a code of internal/platform/cache/otp/otp.go stands.
use text.Mathlib.TextPositions.{eq_refl}
use binno_pta_2026_evaluatio.Prelude.{
  ℕ, ◌+◌, ◌-◌, ◌≤◌, ◌≡◌, refl, ◌∙◌, Option, none, some, List, [], ◌∷◌, String, Result, ok, err,
  arith,
}
use binno_pta_2026_evaluatio.Platform.Redis.{Redis, Stored, command}
use binno_pta_2026_evaluatio.Platform.Otp.{
  OtpError, mismatch, not_found, too_many_attempts, cooling, unavailable, entropy, max_attempts,
  issue, verify, read_digest, settle_guess, issue_free, judged, discard,
}

-- What a client may do about one phone between two codes.
pub data Call : Type 0 where
  guess : String → Call
  wait : ℕ → Call

-- Each answer of `Verify`.
abbrev pub answers :
    (String → String) → String → List Call → Redis → List (Result OtpError (Unit {0}))
answers digest phone [] r = []
answers digest phone (guess code ∷ calls) r =
    let (a, r') = verify digest phone code r in a ∷ answers digest phone calls r'
answers digest phone (wait n ∷ calls) r = answers digest phone calls (record r { now = r.now + n })

-- The code was compared.
abbrev pub is_compared : Result OtpError (Unit {0}) → ℕ
is_compared (ok _) = 1
is_compared (err mismatch) = 1
is_compared (err not_found) = 0
is_compared (err too_many_attempts) = 0
is_compared (err cooling) = 0
is_compared (err unavailable) = 0
is_compared (err entropy) = 0

abbrev pub compared : List (Result OtpError (Unit {0})) → ℕ
compared [] = 0
compared (a ∷ rest) = is_compared a + compared rest

-- A code and its counter expire together.
abbrev Paired : Option (Stored String) → Option (Stored ℕ) → Type 0
Paired none a = Unit {0}
Paired (some c) none = ⊥
Paired (some c) (some a) = c.expires_at ≡ a.expires_at

abbrev left : Option (Stored String) → Option (Stored ℕ) → ℕ
left none a = 0
left (some c) none = 0
left (some c) (some a) = max_attempts - a.value

abbrev IsPaired : String → Redis → Type 0
IsPaired phone r = Paired (r.codes phone) (r.attempts phone)

abbrev left_of : String → Redis → ℕ
left_of phone r = left (r.codes phone) (r.attempts phone)

verify-left :
    (digest : String → String) (phone code : String) (r : Redis)
    → IsPaired phone r
    → IsPaired phone (verify digest phone code r).1
      × (is_compared (verify digest phone code r).0 + left_of phone (verify digest phone code r).1
          ≤ left_of phone r)
unfolding verify settle_guess read_digest judged discard command
verify-left digest phone code r paired = ground (arith, eq_refl phone)

answers-left :
    (digest : String → String) (phone : String) (calls : List Call) (r : Redis)
    → IsPaired phone r
    → compared (answers digest phone calls r) ≤ left_of phone r
answers-left digest phone [] r paired = omega arith
answers-left digest phone (guess code ∷ calls) r paired =
    let (still, step) = verify-left digest phone code r paired in
    let rest = answers-left digest phone calls (verify digest phone code r).1 still in omega arith
answers-left digest phone (wait n ∷ calls) r paired =
    answers-left digest phone calls (record r { now = r.now + n }) paired

issue-left :
    (digest : String → String) (phone : String) (generated : Option String) (r : Redis)
    {code : String}
    → (issue digest phone generated r).0 ≡ ok code
    → IsPaired phone (issue digest phone generated r).1
      × (left_of phone (issue digest phone generated r).1 ≡ max_attempts)
unfolding issue issue_free command
issue-left digest phone generated r h = ground (arith, eq_refl phone)

-- After a code was issued, and until the next is, calls of `Verify` for its phone that do not
-- overlap compare at most five guesses with it, whatever is guessed and however much time passes between them, also if
-- commands of Redis fail on the way.
pub answers_bounded :
    (digest : String → String) (phone : String) (generated : Option String) (calls : List Call)
    (r : Redis) {code : String}
    → (issue digest phone generated r).0 ≡ ok code
    → compared (answers digest phone calls (issue digest phone generated r).1) ≤ max_attempts
answers_bounded digest phone generated calls r h =
    let (paired, full) = issue-left digest phone generated r h in
    let bound = answers-left digest phone calls (issue digest phone generated r).1 paired in
    omega arith

-- The store after the calls.
abbrev pub after_calls : (String → String) → String → List Call → Redis → Redis
after_calls digest phone [] r = r
after_calls digest phone (guess code ∷ calls) r =
    after_calls digest phone calls (verify digest phone code r).1
after_calls digest phone (wait n ∷ calls) r =
    after_calls digest phone calls (record r { now = r.now + n })

verify-frame :
    (digest : String → String) (phone code : String) (r : Redis)
    → ((verify digest phone code r).1.cooldowns ≡ r.cooldowns)
      × ((verify digest phone code r).1.now ≡ r.now)
      × (r.outages ≡ [] → (verify digest phone code r).1.outages ≡ [])
unfolding verify settle_guess read_digest judged discard command
verify-frame digest phone code r = (ground arith, ground arith, λ up. ground arith)

-- The time that the calls wait, in sum.
abbrev pub waited : List Call → ℕ
waited [] = 0
waited (guess code ∷ calls) = waited calls
waited (wait n ∷ calls) = n + waited calls

pub after_calls-frame :
    (digest : String → String) (phone : String) (calls : List Call) (r : Redis)
    → ((after_calls digest phone calls r).cooldowns ≡ r.cooldowns)
      × ((after_calls digest phone calls r).now ≡ r.now + waited calls)
      × (r.outages ≡ [] → (after_calls digest phone calls r).outages ≡ [])
after_calls-frame digest phone [] r = (refl, omega arith, λ up. up)
after_calls-frame digest phone (guess code ∷ calls) r =
    let (kept, still, alive) = verify-frame digest phone code r in
    let (kept', rest, alive') =
      after_calls-frame digest phone calls (verify digest phone code r).1 in
    (kept' ∙ kept, omega arith, λ up. alive' (alive up))
after_calls-frame digest phone (wait n ∷ calls) r =
    let (kept, rest, alive) = after_calls-frame digest phone calls (record r { now = r.now + n }) in
    (kept, omega arith, alive)
