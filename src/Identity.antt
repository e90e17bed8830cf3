-- ===== src/Identity.antt =====
-- internal/modules/identity: accounts by phone and one-time code, and their sessions. This file is
-- service.go.
pub mod Phone
pub mod Tables
pub mod Rotation
pub mod Access
pub mod SignIn
pub mod Janitor
mod Tests
use Prim.Native.String.{◌++◌ as concat}
use binno_pta_2026_evaluatio.Prelude.{
  ℕ, zero, suc, ◌+◌, ◌*◌, ◌/◌, ◌≡◌, Bool, true, false, Option, none, some, List, [], ◌∷◌, ◌++◌,
  String, str_eq, if◌then◌else◌, ltb, leb, Result, ok, err,
}
use binno_pta_2026_evaluatio.Authz.{Role}
use binno_pta_2026_evaluatio.Platform.Io.{Io, done, fails, reads, on_err, ◌>>=◌, ◌>>◌}
use binno_pta_2026_evaluatio.Platform.Redis.{Redis}
use binno_pta_2026_evaluatio.Platform.Otp
use binno_pta_2026_evaluatio.Platform.Otp.{
  OtpError, not_found, mismatch, too_many_attempts, cooling, unavailable, entropy,
}
use binno_pta_2026_evaluatio.Identity.Phone.{normalize_phone}
use binno_pta_2026_evaluatio.Identity.Tables.{
  AccountStatus, active, blocked, User, RefreshToken, Delivery, delivered, undeliverable, failed,
  IdentityError, invalid_phone, invalid_code, cooldown, invalid_session, account_blocked, internal,
  Accounts, RoleFlags, upsert_user, role_flags, store_refresh_token, find_refresh_token,
  revoke_refresh_token, revoke_all_user_tokens,
}

abbrev pub refresh_token_ttl : ℕ
refresh_token_ttl = 30 * 24 * 60 * 60 * 1000000000

-- What `Sign` of platform/httpx/jwt_issue.go puts into an access token; instants are seconds.
pub record Claims : Type 0 where
  pub subject : String
  pub issued_at : ℕ
  pub expires_at : ℕ
  pub roles : List Role

-- The signer: the lifetime of access tokens, the encoding of claims with the key, the text of an id;
-- and `digest`, the printed SHA-256.
pub record Issuer : Type 0 where
  pub ttl : ℕ
  pub seal : Claims → String
  pub id_text : ℕ → String
  pub digest : String → String

-- What is drawn_token at random: a new account's id, a session's id, and the refresh token, if there is
-- entropy for it.
pub record Draws : Type 0 where
  pub user_id : ℕ
  pub token_id : ℕ
  pub token : Option String

pub record Tokens : Type 0 where
  pub access_token : String
  pub refresh_token : String
  pub expires_in : ℕ

-- `Session`.
pub record LogIn : Type 0 where
  pub tokens : Tokens
  pub is_new_user : Bool

-- `Sign`.
unfoldable pub sign : Issuer → String → List Role → ℕ → Result IdentityError String
sign issuer subject roles now =
    if str_eq subject ""
    then err internal
    else ok (
        issuer.seal (record {
          subject = subject;
          issued_at = now / 1000000000;
          expires_at = (now + issuer.ttl) / 1000000000;
          roles = roles;
        }))

role_if : Bool → Role → List Role
role_if true role = role ∷ []
role_if false role = []

-- `rolesFor`.
roles_for : ℕ → Io Accounts IdentityError (List Role)
unfolding role_if
roles_for user_id = do
  flags ← role_flags user_id
  done (Role.buyer ∷ role_if flags.is_seller Role.seller ++ role_if flags.is_operator Role.operator)

lifted : {A : Type 0} → Result IdentityError A → Io Accounts IdentityError A
lifted r s = (r, s)

drawn_token : Option String → Result IdentityError String
drawn_token none = err internal
drawn_token (some token) = ok token

-- `issue`.
unfoldable pub issue_tokens : Issuer → Draws → ℕ → ℕ → Option ℕ → Io Accounts IdentityError Tokens
unfolding roles_for lifted drawn_token
issue_tokens issuer draws user_id now rotated_from = do
  roles ← roles_for user_id
  access ← lifted (sign issuer (issuer.id_text user_id) roles now)
  refresh ← lifted (drawn_token draws.token)
  store_refresh_token (record {
    id = draws.token_id;
    user_id = user_id;
    token_hash = issuer.digest refresh;
    issued_at = now;
    expires_at = now + refresh_token_ttl;
    revoked_at = none;
    rotated_from = rotated_from;
  })
  done (record {
    access_token = access;
    refresh_token = refresh;
    expires_in = issuer.ttl / 1000000000;
  })

abbrev pub on_redis : {A : Type 0} → Io Redis OtpError A → Io Accounts OtpError A
on_redis m s = let (r, redis) = m s.redis in (r, record s { redis = redis })

abbrev or_invalid : Option String → Result IdentityError String
or_invalid none = err invalid_phone
or_invalid (some phone) = ok phone

abbrev issue_error : OtpError → IdentityError
issue_error cooling = cooldown
issue_error not_found = internal
issue_error mismatch = internal
issue_error too_many_attempts = internal
issue_error unavailable = internal
issue_error entropy = internal

-- The message of `Send`.
abbrev pub message : String → String
message code = concat "BINNO tasdiqlash kodi: " code

abbrev posted : Delivery → String → String → Accounts → Delivery × Accounts
posted delivered phone text s = (delivered, record s { sent = s.sent ++ (phone, text) ∷ [] })
posted undeliverable phone text s = (undeliverable, s)
posted failed phone text s = (failed, s)

abbrev send_by : List Delivery → String → String → Accounts → Delivery × Accounts
send_by [] phone text s = posted delivered phone text s
send_by (d ∷ rest) phone text s = posted d phone text (record s { gateway = rest })

send_message : String → String → Io Accounts IdentityError Delivery
send_message phone text s = let (d, s') = send_by s.gateway phone text s in (ok d, s')

after_send : String → Delivery → Io Accounts IdentityError (Unit {0})
after_send phone delivered = done tt
after_send phone undeliverable = fails invalid_phone
after_send phone failed = do on_err (λ e. internal) (on_redis (Otp.cancel phone)); fails internal

-- `RequestCode`; the code that is drawn_token is an argument.
unfoldable pub request_code : Issuer → Option String → String → Io Accounts IdentityError (Unit {0})
unfolding after_send send_message lifted
request_code issuer generated raw = do
  phone ← lifted (or_invalid (normalize_phone raw))
  code ← on_err issue_error (on_redis (Otp.issue issuer.digest phone generated))
  delivery ← send_message phone (message code)
  after_send phone delivery

abbrev verify_error : OtpError → IdentityError
verify_error not_found = invalid_code
verify_error mismatch = invalid_code
verify_error too_many_attempts = invalid_code
verify_error cooling = internal
verify_error unavailable = internal
verify_error entropy = internal

sign_in : Issuer → Draws → ℕ → User → Bool → AccountStatus → Io Accounts IdentityError LogIn
sign_in issuer draws now user registered blocked = fails account_blocked
sign_in issuer draws now user registered active = do
  tokens ← issue_tokens issuer draws user.id now none
  done (record { tokens = tokens; is_new_user = registered })

-- `VerifyCode`.
unfoldable pub verify_code : Issuer → Draws → String → String → Io Accounts IdentityError LogIn
unfolding sign_in lifted
verify_code issuer draws raw code = do
  phone ← lifted (or_invalid (normalize_phone raw))
  on_err verify_error (on_redis (Otp.verify issuer.digest phone code))
  now ← reads (λ s. s.clock)
  (user, registered) ← upsert_user draws.user_id phone now
  sign_in issuer draws now user registered user.status

rotate : Issuer → Draws → ℕ → RefreshToken → ℕ → Io Accounts IdentityError Tokens
rotate issuer draws now t zero = fails invalid_session
rotate issuer draws now t (suc n) = issue_tokens issuer draws t.user_id now (some t.id)

refresh_live : Issuer → Draws → ℕ → RefreshToken → AccountStatus → Io Accounts IdentityError Tokens
unfolding rotate
refresh_live issuer draws now t blocked = do
  revoke_all_user_tokens t.user_id now
  fails account_blocked
refresh_live issuer draws now t active = elim (ltb now t.expires_at) [
  | false ↦ fails invalid_session
  | true ↦ revoke_refresh_token t.id now >>= rotate issuer draws now t
]

refresh_found :
    Issuer → Draws → ℕ → RefreshToken → AccountStatus → Option ℕ → Io Accounts IdentityError Tokens
unfolding refresh_live
refresh_found issuer draws now t status (some _) = do
  revoke_all_user_tokens t.user_id now
  fails invalid_session
refresh_found issuer draws now t status none = refresh_live issuer draws now t status

-- `Refresh`.
unfoldable pub refresh : Issuer → Draws → String → Io Accounts IdentityError Tokens
unfolding refresh_found
refresh issuer draws presented = do
  (t, status) ← find_refresh_token (issuer.digest presented)
  now ← reads (λ s. s.clock)
  refresh_found issuer draws now t status t.revoked_at

log_out_of :
    ℕ → Result IdentityError (RefreshToken × AccountStatus) → Io Accounts IdentityError (Unit {0})
log_out_of now (ok (t, _)) = revoke_refresh_token t.id now >>= λ _. done tt
log_out_of now (err invalid_session) = done tt
log_out_of now (err invalid_phone) = fails invalid_phone
log_out_of now (err invalid_code) = fails invalid_code
log_out_of now (err cooldown) = fails cooldown
log_out_of now (err account_blocked) = fails account_blocked
log_out_of now (err internal) = fails internal

-- `Logout`.
unfoldable pub logout : Issuer → String → Io Accounts IdentityError (Unit {0})
unfolding log_out_of
logout issuer presented s =
    let (found, s') = find_refresh_token (issuer.digest presented) s in log_out_of s'.clock found s'
