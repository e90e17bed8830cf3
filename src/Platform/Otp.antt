-- ===== src/Platform/Otp.antt =====
-- internal/platform/cache/otp/otp.go: one-time codes by SMS.
pub mod Guesses
pub mod Codes
pub mod Overlap
mod Tests
use Prim.Native.String.{◌++◌ as concat}
use binno_pta_2026_evaluatio.Prelude.{
  ℕ, suc, ◌+◌, ◌*◌, ◌/◌, ◌^◌, ◌≡◌, refl, Bool, true, false, not, Option, none, some, List, [], ◌∷◌,
  String, str_eq, if◌then◌else◌, ltb, Result, ok, err, arith,
}
use binno_pta_2026_evaluatio.Platform.Io.{Io, done, fails, reads, ◌>>=◌, ◌>>◌}
use binno_pta_2026_evaluatio.Platform.Redis.{
  Redis, Keys, get_key, set_key, del_key, kept_expiry, incr_count, command,
}

-- The errors that a caller tells apart; `entropy` is a failure of `generateCode`.
pub data OtpError : Type 0 where
  not_found mismatch too_many_attempts cooling unavailable entropy : OtpError

-- Durations are nanoseconds.
abbrev pub code_ttl : ℕ
code_ttl = 5 * 60 * 1000000000

abbrev pub cooldown : ℕ
cooldown = 60 * 1000000000

abbrev pub max_attempts : ℕ
max_attempts = 5

-- `hash`; `digest` is the printed SHA-256.
abbrev pub hash : (String → String) → String → String → String
hash digest phone code = digest (concat phone (concat ":" code))

-- The cooldown key is taken, if it is free.
abbrev take_cooldown : String → Redis → Bool × Redis
take_cooldown phone r = elim (get_key r.now phone r.cooldowns) [
  | some _ ↦ (false, r)
  | none ↦ (true, record r { cooldowns = set_key phone tt (some (r.now + cooldown)) r.cooldowns })
]

-- The pipeline of `Issue`.
abbrev store_code : String → String → Redis → Unit {0} × Redis
store_code phone sum r = (
  tt,
  record r {
    codes = set_key phone sum (some (r.now + code_ttl)) r.codes;
    attempts = set_key phone 0 (some (r.now + code_ttl)) r.attempts;
  },
)

issue_free : (String → String) → String → Option String → Bool → Io Redis OtpError String
issue_free digest phone generated false = fails cooling
issue_free digest phone none true = fails entropy
issue_free digest phone (some code) true = do
  command unavailable (store_code phone (hash digest phone code))
  done code

-- `Issue`; the code that `generateCode` draws is an argument.
unfoldable pub issue : (String → String) → String → Option String → Io Redis OtpError String
unfolding issue_free
issue digest phone generated = do
  free ← command unavailable (take_cooldown phone)
  issue_free digest phone generated free

abbrev count_attempt : String → Redis → ℕ × Redis
count_attempt phone r = (
  incr_count r.now phone r.attempts,
  record r {
    attempts =
        set_key phone (incr_count r.now phone r.attempts) (kept_expiry r.now phone r.attempts)
          r.attempts;
  },
)

abbrev drop_code : String → Redis → Unit {0} × Redis
drop_code phone r =
    (tt, record r { codes = del_key phone r.codes; attempts = del_key phone r.attempts })

settled : {A : Type 0} → Result A (Unit {0}) × Redis → Redis
settled (_, r) = r

-- `discard`, whose error is dropped.
discard : String → Redis → Redis
unfolding settled
discard phone r = settled (command unavailable (drop_code phone) r)

judged : String → Bool → Bool → Io Redis OtpError (Unit {0})
unfolding discard
judged phone true same r = (err too_many_attempts, discard phone r)
judged phone false false r = (err mismatch, r)
judged phone false true r = (ok tt, discard phone r)

-- What `Verify` does with the digest that it has read.
unfoldable pub settle_guess :
    (String → String) → String → String → Option String → Io Redis OtpError (Unit {0})
unfolding judged
settle_guess digest phone code none = fails not_found
settle_guess digest phone code (some stored) = do
  attempts ← command unavailable (count_attempt phone)
  judged phone (ltb max_attempts attempts) (str_eq stored (hash digest phone code))

-- The read that `Verify` starts with.
unfoldable pub read_digest : String → Io Redis OtpError (Option String)
read_digest phone = command unavailable (λ r. (get_key r.now phone r.codes, r))

-- `Verify`.
unfoldable pub verify : (String → String) → String → String → Io Redis OtpError (Unit {0})
unfolding settle_guess read_digest
verify digest phone code = do stored ← read_digest phone; settle_guess digest phone code stored

-- `Cancel`.
unfoldable pub cancel : String → Io Redis OtpError (Unit {0})
cancel phone = command unavailable λ r. (
  tt,
  record r {
    cooldowns = del_key phone r.cooldowns;
    codes = del_key phone r.codes;
    attempts = del_key phone r.attempts;
  },
)
