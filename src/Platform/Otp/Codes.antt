-- ===== src/Platform/Otp/Codes.antt =====
-- When internal/platform/cache/otp/otp.go takes a code, and when it sends one.
use text.Mathlib.TextPositions.{eq_refl}
use binno_pta_2026_evaluatio.Prelude.{
  ℕ, ◌+◌, ◌<◌, ◌≡◌, ap, ◌∙◌, Option, none, some, List, [], String, ok, err, arith, true, str_eq,
  Option-cases, inl, inr,
}
use binno_pta_2026_evaluatio.Platform.Redis.{Redis, Stored, command, get_key}
use binno_pta_2026_evaluatio.Platform.Otp.Guesses.{Call, after_calls, after_calls-frame, waited}
use binno_pta_2026_evaluatio.Platform.Otp.{
  not_found, cooling, issue, verify, read_digest, settle_guess, issue_free, judged, discard, hash,
  code_ttl, cooldown,
}

abbrev pub later : ℕ → Redis → Redis
later n r = record r { now = r.now + n }

-- On a phone that no cooldown holds, and with no command failing: the code that `Issue` answers is
-- accepted once before it expires, and not found a second time.
pub issue-verify :
    (digest : String → String) (phone code : String) (elapsed : ℕ) (r : Redis)
    → r.outages ≡ []
    → get_key r.now phone r.cooldowns ≡ none
    → elapsed < code_ttl
    → let (issued, r1) = issue digest phone (some code) r in
      let (first, r2) = verify digest phone code (later elapsed r1) in
      let (second, r3) = verify digest phone code r2 in
      (issued ≡ ok code) × (first ≡ ok tt) × (second ≡ err not_found)
unfolding verify settle_guess read_digest judged discard command issue issue_free
issue-verify digest phone code elapsed r up free early = (
  ground (arith, eq_refl phone),
  ground (arith, eq_refl phone, eq_refl (hash digest phone code)),
  ground (arith, eq_refl phone, eq_refl (hash digest phone code)),
)

-- What an accepted guess was compared with, and that nothing is left to compare with.
pub verify-used :
    (digest : String → String) (phone code : String) (r : Redis)
    → r.outages ≡ []
    → (verify digest phone code r).0 ≡ ok tt
    → (stored : String) × (get_key r.now phone r.codes ≡ some stored)
      × (str_eq stored (hash digest phone code) ≡ true)
      × (get_key (verify digest phone code r).1.now phone (verify digest phone code r).1.codes
          ≡ none)
unfolding verify settle_guess read_digest judged discard command
verify-used digest phone code r up h = elim (Option-cases (get_key r.now phone r.codes)) [
  | inl missing ↦ absurd (ground (arith, up, missing))
  | inr (stored, found) ↦
      (stored, found, ground (arith, up, found), ground (arith, up, found, eq_refl phone))
]

issue-cooldown :
    (digest : String → String) (phone : String) (generated : Option String) (r : Redis)
    {code : String}
    → r.outages ≡ []
    → (issue digest phone generated r).0 ≡ ok code
    → ((issue digest phone generated r).1.outages ≡ [])
      × ((issue digest phone generated r).1.now ≡ r.now)
      × ((issue digest phone generated r).1.cooldowns phone
          ≡ some (record { value = tt; expires_at = some (r.now + cooldown) }))
unfolding issue issue_free command
issue-cooldown digest phone generated r up h =
    (ground arith, ground arith, ground (arith, eq_refl phone))

issue-cooling :
    (digest : String → String) (phone : String) (generated : Option String) (until : ℕ) (r : Redis)
    → r.outages ≡ []
    → r.cooldowns phone ≡ some (record { value = tt; expires_at = some until })
    → r.now < until
    → issue digest phone generated r ≡ (err cooling, r)
unfolding issue issue_free command
issue-cooling digest phone generated until r up held early = ground arith

-- With no command failing: in the minute after a code was issued for a phone, and whatever is guessed
-- meanwhile, no second code is issued for it and the refusal changes nothing, unless `Cancel` comes between.
pub issue_cooldown :
    (digest : String → String) (phone : String) (generated again : Option String)
    (calls : List Call) (r : Redis) {code : String}
    → r.outages ≡ []
    → (issue digest phone generated r).0 ≡ ok code
    → waited calls < cooldown
    → let s = after_calls digest phone calls (issue digest phone generated r).1 in
      issue digest phone again s ≡ (err cooling, s)
issue_cooldown digest phone generated again calls r up h short =
    let (up1, now1, held) = issue-cooldown digest phone generated r up h in
    let (kept, now2, alive) =
      after_calls-frame digest phone calls (issue digest phone generated r).1 in
    issue-cooling digest phone again (r.now + cooldown)
      (after_calls digest phone calls (issue digest phone generated r).1) (alive up1)
      (ap (λ (f : String → Option (Stored (Unit {0}))). f phone) kept ∙ held) (omega arith)
