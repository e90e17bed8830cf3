-- ===== src/Platform/Otp/Tests.antt =====
-- Witnesses for the one-time codes; a text stands for its own digest.
use binno_pta_2026_evaluatio.Prelude.{◌≤◌, ◌≡◌, refl, some, List, [], ◌∷◌, String, arith, ok, err}
use binno_pta_2026_evaluatio.Platform.Redis.{Redis, empty_redis, set_key, command}
use binno_pta_2026_evaluatio.Platform.Otp.{
  not_found, cooling, max_attempts, issue, verify, read_digest, settle_guess, hash,
}
use binno_pta_2026_evaluatio.Platform.Otp.Guesses.{
  Call, guess, wait, answers, compared, after_calls, answers_bounded,
}
use binno_pta_2026_evaluatio.Platform.Otp.Codes.{later, issue-verify, issue_cooldown}

abbrev plain : String → String
plain s = s

abbrev phone : String
phone = "998901234567"

abbrev sent : Redis
sent = (issue plain phone (some "042137") empty_redis).1

issued : (issue plain phone (some "042137") empty_redis).0 ≡ ok "042137"
unfolding issue command
issued = refl

abbrev tries : List Call
tries = guess "000000" ∷ wait 5 ∷ guess "111111" ∷ guess "042137" ∷ []

answers_bounded_example : compared (answers plain phone tries sent) ≤ max_attempts
answers_bounded_example =
    answers_bounded plain phone (some "042137") tries empty_redis {code = "042137"} issued

three_compared : compared (answers plain phone tries sent) ≡ 3
unfolding issue verify read_digest settle_guess command
three_compared = refl

issue-verify_example :
    let (issued, r1) = issue plain phone (some "042137") empty_redis in
    let (first, r2) = verify plain phone "042137" (later 7 r1) in
    let (second, r3) = verify plain phone "042137" r2 in
    (issued ≡ ok "042137") × (first ≡ ok tt) × (second ≡ err not_found)
issue-verify_example = issue-verify plain phone "042137" 7 empty_redis refl refl (omega arith)

issue_cooldown_example :
    let s = after_calls plain phone tries sent in
    issue plain phone (some "999999") s ≡ (err cooling, s)
issue_cooldown_example =
    issue_cooldown plain phone (some "042137") (some "999999") tries empty_redis {code = "042137"}
      refl issued (omega arith)

-- The store after a code was sent, written out.
abbrev fresh : Redis
fresh = record empty_redis {
  codes = set_key phone (hash plain phone "042137") (some 300) empty_redis.codes;
  attempts = set_key phone 0 (some 300) empty_redis.attempts;
}

abbrev wrong_guesses : List String
wrong_guesses = "0" ∷ "1" ∷ "2" ∷ "3" ∷ "4" ∷ "5" ∷ "6" ∷ []
