-- ===== src/Identity/Access.antt =====
-- Who is signed in by internal/modules/identity/service.go, and who is signed out.
use mathlib.Core.List.{append-nil}
use binno_pta_2026_evaluatio.Prelude.{
  ℕ, ◌≡◌, ◌≢◌, sym, ap, none, some, [], String, ==-self, ok, err, arith, find_row, update_rows,
  Option-cases, inl, inr,
}
use binno_pta_2026_evaluatio.Identity.Phone.{normalize_phone}
use binno_pta_2026_evaluatio.Identity.Tables.{
  AccountStatus, blocked, User, RefreshToken, invalid_session, account_blocked, Accounts,
  lookup_token, has_phone, is_live_of, is_live_session, revoked, statement, find_refresh_token,
  revoke_refresh_token, revoke_all_user_tokens, upsert_user,
}
use binno_pta_2026_evaluatio.Identity.{
  Issuer, Draws, LogIn, refresh, refresh_found, refresh_live, logout, log_out_of, verify_code,
  sign_in, lifted,
}
use binno_pta_2026_evaluatio.Identity.Rotation.{
  IsSignedOut, revoked-signed_out, refresh-revoked, lookup-revoked, rotated_db, closed, at_time,
}

refresh-missing :
    (issuer : Issuer) (draws : Draws) (presented : String) (s : Accounts)
    → s.faults ≡ []
    → lookup_token (issuer.digest presented) s ≡ none
    → refresh issuer draws presented s ≡ (err invalid_session, s)
unfolding refresh statement find_refresh_token
refresh-missing issuer draws presented s up missing = ground (arith, missing)

logout-missing :
    (issuer : Issuer) (presented : String) (s : Accounts)
    → s.faults ≡ []
    → lookup_token (issuer.digest presented) s ≡ none
    → logout issuer presented s ≡ (ok tt, s)
unfolding logout log_out_of statement find_refresh_token
logout-missing issuer presented s up missing = ground (arith, missing)

logout-found :
    (issuer : Issuer) (presented : String) (s : Accounts) {t : RefreshToken}
    {status : AccountStatus}
    → s.faults ≡ []
    → lookup_token (issuer.digest presented) s ≡ some (t, status)
    → logout issuer presented s ≡ (ok tt, rotated_db t s)
unfolding logout log_out_of statement find_refresh_token revoke_refresh_token
logout-found issuer presented s up found = ground (arith, found)

closed-revoked :
    (now : ℕ) (t : RefreshToken)
    → (at : ℕ) × ((closed (is_live_session t.id) now t).revoked_at ≡ some at)
closed-revoked now t = elim (Option-cases t.revoked_at) [
  | inl live ↦ (now, ground (arith, live, ==-self t.id))
  | inr (at, gone) ↦ (at, ground (arith, gone))
]

-- With no statement failing: `Logout` succeeds whatever is presented, and from then on that token is
-- refused by `Refresh` at any time.
pub logout_ends :
    (issuer : Issuer) (draws : Draws) (presented : String) (later : ℕ) (s : Accounts)
    → s.faults ≡ []
    → ((logout issuer presented s).0 ≡ ok tt)
      × ((refresh issuer draws presented (at_time later (logout issuer presented s).1)).0
          ≡ err invalid_session)
logout_ends issuer draws presented later s up =
    elim (Option-cases (lookup_token (issuer.digest presented) s)) [
      | inl missing ↦
          let out = logout-missing issuer presented s up missing in
          (
            ap (λ r. r.0) out,
            rw out (
                ap (λ r. r.0)
                  (refresh-missing issuer draws presented (at_time later s) up missing)),
          )
      | inr ((t, status), found) ↦
          let out = logout-found issuer presented s up found in
          let (at, gone) = closed-revoked s.clock t in
          let kept : lookup_token (issuer.digest presented) (at_time later (rotated_db t s))
              ≡ some (closed (is_live_session t.id) s.clock t, status) =
            rw (sym (append-nil (rotated_db t s).tokens))
              (lookup-revoked (issuer.digest presented) s [] found) in
          (
            ap (λ r. r.0) out,
            rw out (
                ap (λ r. r.0)
                  (refresh-revoked issuer draws presented (at_time later (rotated_db t s)) up kept
                    gone)),
          )
    ]

refresh-blocked :
    (issuer : Issuer) (draws : Draws) (presented : String) (s : Accounts) {t : RefreshToken}
    → s.faults ≡ []
    → lookup_token (issuer.digest presented) s ≡ some (t, blocked)
    → t.revoked_at ≡ none
    → refresh issuer draws presented s ≡ (
      err account_blocked,
      record s { tokens = update_rows (is_live_of t.user_id) (revoked s.clock) s.tokens },
    )
unfolding refresh refresh_found refresh_live statement find_refresh_token revoke_all_user_tokens
refresh-blocked issuer draws presented s up found live = ground (arith, found)

-- `VerifyCode` for the phone of a blocked account does not succeed and stores no session, also if
-- statements fails on the way.
pub verify_code-blocked :
    (issuer : Issuer) (draws : Draws) (raw code phone : String) (u : User) (l : LogIn)
    (s : Accounts)
    → normalize_phone raw ≡ some phone
    → find_row (has_phone phone) s.users ≡ some u
    → u.status ≡ blocked
    → ((verify_code issuer draws raw code s).1.tokens ≡ s.tokens)
      × ((verify_code issuer draws raw code s).0 ≢ ok l)
unfolding verify_code sign_in lifted upsert_user statement
verify_code-blocked issuer draws raw code phone u l s normal found shut =
    (ground (arith, normal, found), λ h. ground (arith, normal, found))

-- With no statement failing, `Refresh` with a live session of a blocked account reports the block and
-- leaves no session of the account.
pub refresh_blocked :
    (issuer : Issuer) (draws : Draws) (presented : String) (t : RefreshToken) (s : Accounts)
    → s.faults ≡ []
    → lookup_token (issuer.digest presented) s ≡ some (t, blocked)
    → t.revoked_at ≡ none
    → ((refresh issuer draws presented s).0 ≡ err account_blocked)
      × IsSignedOut t.user_id (refresh issuer draws presented s).1
refresh_blocked issuer draws presented t s up found live =
    let out = refresh-blocked issuer draws presented s up found live in
    (ap (λ r. r.0) out, rw out (revoked-signed_out t.user_id s.clock s.tokens))
