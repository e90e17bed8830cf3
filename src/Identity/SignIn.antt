-- ===== src/Identity/SignIn.antt =====
-- What `VerifyCode` of internal/modules/identity/service.go leaves when it succeeds.
use text.Mathlib.TextPositions.{eq_refl}
use binno_pta_2026_evaluatio.Prelude.{
  ℕ, ◌+◌, ◌≡◌, refl, ap, ◌∙◌, Bool, none, some, List, [], ◌∷◌, ◌++◌, String, str_eq, true, ok,
  arith, find_row, update_rows, Option-cases, Result-cases, inl, inr,
}
use binno_pta_2026_evaluatio.Platform.Redis.{get_key}
use binno_pta_2026_evaluatio.Platform.Otp
use binno_pta_2026_evaluatio.Platform.Otp.{hash}
use binno_pta_2026_evaluatio.Platform.Otp.Codes.{verify-used}
use binno_pta_2026_evaluatio.Identity.Phone.{normalize_phone}
use binno_pta_2026_evaluatio.Identity.Tables.{
  active, User, RefreshToken, Accounts, has_phone, logged_in, new_user, statement, upsert_user,
}
use binno_pta_2026_evaluatio.Identity.{
  Issuer, Draws, LogIn, issue_tokens, verify_code, sign_in, lifted, refresh_token_ttl,
}
use binno_pta_2026_evaluatio.Identity.Rotation.{issue_tokens-ok}

find_row-logged_in :
    (phone : String) (now : ℕ) (us : List User) {u : User}
    → find_row (has_phone phone) us ≡ some u
    → find_row (has_phone phone) (update_rows (has_phone phone) (logged_in now) us)
      ≡ some (logged_in now u)
find_row-logged_in phone now [] h = cc
find_row-logged_in phone now (x ∷ us) {u = u} h =
    ground (arith, find_row-logged_in phone now us {u = u})

find_row-new :
    (phone : String) (new : User) (us : List User)
    → find_row (has_phone phone) us ≡ none
    → new.phone ≡ phone
    → find_row (has_phone phone) (us ++ new ∷ []) ≡ some new
find_row-new phone new [] h same = ground (arith, same, eq_refl phone)
find_row-new phone new (x ∷ us) h same = ground (arith, find_row-new phone new us)

-- The account after an upsert, with what the upsert leaves alone.
upsert_user-ok :
    (id : ℕ) (phone : String) (now : ℕ) (s : Accounts) {u : User} {registered : Bool}
    → s.faults ≡ []
    → (upsert_user id phone now s).0 ≡ ok (u, registered)
    → (find_row (has_phone phone) (upsert_user id phone now s).1.users ≡ some u)
      × ((upsert_user id phone now s).1.tokens ≡ s.tokens)
      × ((upsert_user id phone now s).1.faults ≡ [])
      × ((upsert_user id phone now s).1.redis ≡ s.redis)
unfolding upsert_user statement
upsert_user-ok id phone now s up h = elim (Option-cases (find_row (has_phone phone) s.users)) [
  | inl missing ↦ (
    ground (arith, missing, find_row-new phone (new_user id phone now) s.users missing refl),
    ground (arith, missing),
    ground (arith, missing),
    ground (arith, missing),
  )
  | inr (u, found) ↦ (
    ground (arith, found, find_row-logged_in phone now s.users {u = u} found),
    ground (arith, found),
    ground (arith, found),
    ground (arith, found),
  )
]

-- The accounts once the code is used up.
abbrev code_used : Issuer → String → String → Accounts → Accounts
code_used issuer phone code s = record s { redis = (Otp.verify issuer.digest phone code s.redis).1 }

verify_code-steps :
    (issuer : Issuer) (draws : Draws) (raw code : String) (s : Accounts) {l : LogIn}
    → (verify_code issuer draws raw code s).0 ≡ ok l
    → (phone : String) × (normalize_phone raw ≡ some phone)
      × ((Otp.verify issuer.digest phone code s.redis).0 ≡ ok tt)
      × (u : User) × (registered : Bool) × ((upsert_user draws.user_id phone s.clock
            (code_used issuer phone code s)).0
          ≡ ok (u, registered))
      × (u.status ≡ active)
      × ((issue_tokens issuer draws u.id s.clock none
            (upsert_user draws.user_id phone s.clock (code_used issuer phone code s)).1).0
          ≡ ok l.tokens)
      × ((verify_code issuer draws raw code s).1
          ≡ (issue_tokens issuer draws u.id s.clock none
              (upsert_user draws.user_id phone s.clock (code_used issuer phone code s)).1).1)
unfolding verify_code sign_in lifted
verify_code-steps issuer draws raw code s h = elim (Option-cases (normalize_phone raw)) [
  | inl bad ↦ absurd (ground (arith, bad))
  | inr (phone, normal) ↦ elim (Result-cases (Otp.verify issuer.digest phone code s.redis).0) [
    | inr (e, wrong) ↦ absurd (ground (arith, normal, wrong))
    | inl (u, right) ↦
        elim (Result-cases
          (upsert_user draws.user_id phone s.clock (code_used issuer phone code s)).0) [
            | inr (e, down) ↦ absurd (ground (arith, normal, right, down))
            | inl ((u, registered), found) ↦ (
              phone,
              normal,
              right,
              u,
              registered,
              found,
              ground (arith, normal, right, found),
              ground (arith, normal, right, found),
              ground (arith, normal, right, found),
            )
          ]
  ]
]

-- With no statement and no command failing, `VerifyCode` succeeds only for a phone for which the code
-- was kept, and the code is used up: none is kept for the phone any more. Then the phone has an account
-- that is not blocked, and this account has one session more, which rotates no other and ends after
-- thirty days; no other session changes.
pub verify_code_signs_in :
    (issuer : Issuer) (draws : Draws) (raw code : String) (s : Accounts) {l : LogIn}
    → s.faults ≡ []
    → s.redis.outages ≡ []
    → (verify_code issuer draws raw code s).0 ≡ ok l
    → (phone : String) × (normalize_phone raw ≡ some phone)
      × (stored : String) × (get_key s.redis.now phone s.redis.codes ≡ some stored)
      × (str_eq stored (hash issuer.digest phone code) ≡ true)
      × (get_key
            (verify_code issuer draws raw code s).1.redis.now
            phone
            (verify_code issuer draws raw code s).1.redis.codes
          ≡ none)
      × (u : User) × (find_row (has_phone phone) (verify_code issuer draws raw code s).1.users
          ≡ some u)
      × (u.status ≡ active)
      × (new : RefreshToken) × (new.user_id ≡ u.id)
      × (new.rotated_from ≡ none)
      × (new.revoked_at ≡ none)
      × (new.expires_at ≡ s.clock + refresh_token_ttl)
      × (new.token_hash ≡ issuer.digest l.tokens.refresh_token)
      × ((verify_code issuer draws raw code s).1.tokens ≡ s.tokens ++ new ∷ [])
verify_code_signs_in issuer draws raw code s {l = l} up reachable h =
    let (phone, normal, right, u, registered, found, is_active, issued, after) =
      verify_code-steps issuer draws raw code s h in
    let s1 : Accounts =
      (upsert_user draws.user_id phone s.clock (code_used issuer phone code s)).1 in
    let (there, kept, up1, same) =
      upsert_user-ok draws.user_id phone s.clock (code_used issuer phone code s) up found in
    let (stored_hash, held, matches, gone) =
      verify-used issuer.digest phone code s.redis reachable right in
    let (new, mine, from, live, until, hashed, stored) =
      issue_tokens-ok issuer draws u.id s.clock none s1 up1 issued in
    let last = after ∙ stored in
    (
      phone,
      normal,
      stored_hash,
      held,
      matches,
      ap (λ a. get_key a.redis.now phone a.redis.codes) last
          ∙ (ap (λ r. get_key r.now phone r.codes) same ∙ gone),
      u,
      ap (λ a. find_row (has_phone phone) a.users) last ∙ there,
      is_active,
      new,
      mine,
      from,
      live,
      until,
      hashed,
      ap (λ a. a.tokens) last ∙ ap (λ ts. ts ++ new ∷ []) kept,
    )
