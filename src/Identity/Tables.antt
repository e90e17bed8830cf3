-- ===== src/Identity/Tables.antt =====
-- internal/modules/identity/repository.go with its statements (store/queries.sql.go): the accounts
-- and their refresh tokens. Ids are numbers and a token's hash is a text.
use binno_pta_2026_evaluatio.Prelude.{
  ℕ, Bool, true, false, not, ◌&&◌, Option, none, some, List, [], ◌∷◌, ◌++◌, String, str_eq,
  if◌then◌else◌, ◌==◌, Result, ok, err, find_row, count_rows, update_rows,
}
use binno_pta_2026_evaluatio.Platform.Io.{Io}
use binno_pta_2026_evaluatio.Platform.Redis.{Redis}

pub data AccountStatus : Type 0 where
  active blocked : AccountStatus

-- `User` and identity.users.
pub record User : Type 0 where
  pub id : ℕ
  pub phone : String
  pub status : AccountStatus
  pub is_operator : Bool
  pub created_at : ℕ
  pub last_login_at : Option ℕ

-- identity.refresh_tokens, and `RefreshRecord` but for the status of the account.
pub record RefreshToken : Type 0 where
  pub id : ℕ
  pub user_id : ℕ
  pub token_hash : String
  pub issued_at : ℕ
  pub expires_at : ℕ
  pub revoked_at : Option ℕ
  pub rotated_from : Option ℕ

-- What the SMS gateway makes of a message.
pub data Delivery : Type 0 where
  delivered undeliverable failed : Delivery

-- The errors of the service; `internal` stands for all that it does not name.
pub data IdentityError : Type 0 where
  invalid_phone invalid_code cooldown invalid_session account_blocked internal : IdentityError

-- The tables, with the users whose owner record is active, beside Redis and the gateway. `faults`
-- says of the statements to come whether they fails, and `gateway` what becomes of the messages to
-- come; beyond their ends all goes well. `clock` is the service's clock.
pub record Accounts : Type 0 where
  pub users : List User
  pub tokens : List RefreshToken
  pub owners : List ℕ
  pub redis : Redis
  pub faults : List Bool
  pub gateway : List Delivery
  pub sent : List (String × String)
  pub clock : ℕ

abbrev ran :
    {A : Type 0}
    → List Bool
    → (Accounts → Result IdentityError A × Accounts)
    → Io Accounts IdentityError A
ran [] f s = f s
ran (false ∷ rest) f s = f (record s { faults = rest })
ran (true ∷ rest) f s = (err internal, record s { faults = rest })

-- One statement, or its failure, which changes no row.
unfoldable pub statement :
    {A : Type 0} → (Accounts → Result IdentityError A × Accounts) → Io Accounts IdentityError A
statement f s = ran s.faults f s

abbrev pub has_phone : String → User → Bool
has_phone phone u = str_eq u.phone phone

abbrev pub has_user_id : ℕ → User → Bool
has_user_id id u = u.id == id

abbrev pub logged_in : ℕ → User → User
logged_in now u = record u { last_login_at = some now }

abbrev pub new_user : ℕ → String → ℕ → User
new_user id phone now = record {
  id = id;
  phone = phone;
  status = active;
  is_operator = false;
  created_at = now;
  last_login_at = some now;
}

-- Whether no row fits.
abbrev pub is_absent : {A : Type 0} → Option A → Bool
is_absent none = true
is_absent (some _) = false

upserted : ℕ → String → ℕ → Option User → Accounts → Result IdentityError (User × Bool) × Accounts
upserted id phone now (some u) s = (
  ok (logged_in now u, u.created_at == now),
  record s { users = update_rows (has_phone phone) (logged_in now) s.users },
)
upserted id phone now none s =
    if is_absent (find_row (has_user_id id) s.users)
    then (
      ok (new_user id phone now, true),
      record s { users = s.users ++ new_user id phone now ∷ [] },
    )
    else (err internal, s)

-- `UpsertUser`, with a fresh id: the account, and whether it was created at this instant.
unfoldable pub upsert_user : ℕ → String → ℕ → Io Accounts IdentityError (User × Bool)
unfolding upserted
upsert_user id phone now =
    statement λ s. upserted id phone now (find_row (has_phone phone) s.users) s

-- `RoleFlags`.
pub record RoleFlags : Type 0 where
  pub is_seller : Bool
  pub is_operator : Bool

abbrev flags_in : ℕ → List ℕ → Option User → RoleFlags
flags_in id owners none = record { is_seller = false; is_operator = false }
flags_in id owners (some u) = record {
  is_seller = not (is_absent (find_row (λ o. o == id) owners));
  is_operator = u.is_operator;
}

-- `RolesFor` of the repository.
unfoldable pub role_flags : ℕ → Io Accounts IdentityError RoleFlags
role_flags id = statement λ s. (ok (flags_in id s.owners (find_row (has_user_id id) s.users)), s)

abbrev pub has_hash : String → RefreshToken → Bool
has_hash hash t = str_eq t.token_hash hash

abbrev pub has_token_id : ℕ → RefreshToken → Bool
has_token_id id t = t.id == id

-- The constraints of the table: the keys are free and the account is there.
abbrev is_insertable : RefreshToken → Accounts → Bool
is_insertable t s =
    is_absent (find_row (has_token_id t.id) s.tokens)
    && is_absent (find_row (has_hash t.token_hash) s.tokens)
    && not (is_absent (find_row (has_user_id t.user_id) s.users))

-- `StoreRefreshToken`.
unfoldable pub store_refresh_token : RefreshToken → Io Accounts IdentityError (Unit {0})
store_refresh_token t = statement λ s.
    if is_insertable t s
    then (ok tt, record s { tokens = s.tokens ++ t ∷ [] })
    else (err internal, s)

-- A token that is found, with the status of its account.
abbrev with_status : Option RefreshToken → List User → Option (RefreshToken × AccountStatus)
with_status none users = none
with_status (some t) users = elim (find_row (has_user_id t.user_id) users) [
  | none ↦ none
  | some u ↦ some (t, u.status)
]

abbrev pub lookup_token : String → Accounts → Option (RefreshToken × AccountStatus)
lookup_token hash s = with_status (find_row (has_hash hash) s.tokens) s.users

abbrev found_token : {A : Type 0} → Option A → Result IdentityError A
found_token none = err invalid_session
found_token (some t) = ok t

-- `FindRefreshToken`.
unfoldable pub find_refresh_token :
    String → Io Accounts IdentityError (RefreshToken × AccountStatus)
find_refresh_token hash = statement λ s. (found_token (lookup_token hash s), s)

abbrev pub is_live : RefreshToken → Bool
is_live t = is_absent t.revoked_at

abbrev pub revoked : ℕ → RefreshToken → RefreshToken
revoked now t = record t { revoked_at = some now }

abbrev pub is_live_session : ℕ → RefreshToken → Bool
is_live_session id t = (t.id == id) && is_live t

abbrev pub is_live_of : ℕ → RefreshToken → Bool
is_live_of user_id t = (t.user_id == user_id) && is_live t

-- `RevokeRefreshToken`: how many rows changed.
unfoldable pub revoke_refresh_token : ℕ → ℕ → Io Accounts IdentityError ℕ
revoke_refresh_token id now = statement λ s. (
  ok (count_rows (is_live_session id) s.tokens),
  record s { tokens = update_rows (is_live_session id) (revoked now) s.tokens },
)

-- `RevokeAllUserTokens`.
unfoldable pub revoke_all_user_tokens : ℕ → ℕ → Io Accounts IdentityError (Unit {0})
revoke_all_user_tokens user_id now =
    statement
      λ s. (ok tt, record s { tokens = update_rows (is_live_of user_id) (revoked now) s.tokens })
