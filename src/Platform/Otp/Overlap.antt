-- ===== src/Platform/Otp/Overlap.antt =====
-- Calls of `Verify` in internal/platform/cache/otp/otp.go that overlap: each has read the digest
-- before any of them goes on.
use binno_pta_2026_evaluatio.Prelude.{◌≡◌, false, some, List, [], ◌∷◌, String, str_eq, Result}
use binno_pta_2026_evaluatio.Platform.Redis.{Redis}
use binno_pta_2026_evaluatio.Platform.Otp.{OtpError, settle_guess, hash}

-- The rest of calls that have all read `stored`, one for each guess.
abbrev pub overlapped :
    (String → String) → String → String → List String → Redis → List (Result OtpError (Unit {0}))
overlapped digest phone stored [] r = []
overlapped digest phone stored (code ∷ codes) r =
    let (a, r') = settle_guess digest phone code (some stored) r in
    a ∷ overlapped digest phone stored codes r'

-- A guess that is not the code.
abbrev pub IsWrong : (String → String) → String → String → String → Type 0
IsWrong digest phone stored code = str_eq stored (hash digest phone code) ≡ false
