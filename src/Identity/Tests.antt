-- ===== src/Identity/Tests.antt =====
-- Witnesses for the sessions: one account with one live session, and one that is blocked.
use binno_pta_2026_evaluatio.Prelude.{
  ◌+◌, ◌≡◌, ◌↔◌, refl, none, some, [], ◌∷◌, ◌++◌, String, str_eq, true, false, arith, ok, err,
  update_rows, find_row,
}
use binno_pta_2026_evaluatio.Platform.Redis.{empty_redis, get_key, set_key, command}
use binno_pta_2026_evaluatio.Platform.Otp
use binno_pta_2026_evaluatio.Platform.Otp.{hash}
use binno_pta_2026_evaluatio.Identity.Phone.{
  normalize_phone, digits_of, Spells, normalize_phone_iff,
}
use binno_pta_2026_evaluatio.Identity.Tables.{
  active, blocked, User, RefreshToken, invalid_session, Accounts, lookup_token, has_phone,
  is_live_session, revoked, statement, find_refresh_token, revoke_refresh_token, role_flags,
  store_refresh_token, upsert_user,
}
use binno_pta_2026_evaluatio.Identity.{
  Issuer, Draws, Tokens, LogIn, refresh, logout, verify_code, issue_tokens, refresh_token_ttl, sign,
}
use binno_pta_2026_evaluatio.Identity.Rotation.{IsSignedOut, at_time, refresh_once}
use binno_pta_2026_evaluatio.Identity.Access.{logout_ends}
use binno_pta_2026_evaluatio.Identity.SignIn.{verify_code_signs_in}
use binno_pta_2026_evaluatio.Identity.Janitor.{prune_all}
use binno_pta_2026_evaluatio.Identity.Janitor.Pruning.{expired_count, lasting, prune_all_returns}

abbrev issuer : Issuer
issuer = record {
  ttl = 900000000000;
  seal = λ claims. claims.subject;
  id_text = λ id. "user";
  digest = λ s. s;
}

abbrev draws : Draws
draws = record { user_id = 3; token_id = 12; token = some "new" }

abbrev again : Draws
again = record { user_id = 4; token_id = 13; token = some "newer" }

abbrev ali : User
ali = record {
  id = 1;
  phone = "998901234567";
  status = active;
  is_operator = false;
  created_at = 0;
  last_login_at = some 0;
}

abbrev vali : User
vali = record ali { id = 2; phone = "998907654321"; status = blocked }

abbrev session : RefreshToken
session = record {
  id = 10;
  user_id = 1;
  token_hash = "old";
  issued_at = 0;
  expires_at = 5000;
  revoked_at = none;
  rotated_from = none;
}

abbrev shut : RefreshToken
shut = record session { id = 11; user_id = 2; token_hash = "shut" }

abbrev ended : RefreshToken
ended = record session { id = 9; token_hash = "ended"; expires_at = 50 }

abbrev accounts : Accounts
accounts = record {
  users = ali ∷ vali ∷ [];
  tokens = ended ∷ session ∷ shut ∷ [];
  owners = 1 ∷ [];
  redis = record empty_redis {
    codes = set_key "998901234567" (hash (λ s. s) "998901234567" "042137") none empty_redis.codes;
  };
  faults = [];
  gateway = [];
  sent = [];
  clock = 100;
}

abbrev tokens : Tokens
tokens = record { access_token = "user"; refresh_token = "new"; expires_in = 900 }

refreshed : (refresh issuer draws "old" accounts).0 ≡ ok tokens
unfolding refresh statement find_refresh_token revoke_refresh_token issue_tokens role_flags
    store_refresh_token sign
refreshed = refl

refresh_once_example :
    (t : RefreshToken) × (lookup_token "old" accounts ≡ some (t, active))
    × ((new : RefreshToken) × (new.user_id ≡ t.user_id)
        × (new.rotated_from ≡ some t.id)
        × (new.expires_at ≡ 100 + refresh_token_ttl)
        × ((refresh issuer draws "old" accounts).1.tokens
            ≡ update_rows (is_live_session t.id) (revoked 100) accounts.tokens ++ new ∷ []))
    × ((refresh issuer again "old" (at_time 200 (refresh issuer draws "old" accounts).1)).0
        ≡ err invalid_session)
    × IsSignedOut t.user_id
        (refresh issuer again "old" (at_time 200 (refresh issuer draws "old" accounts).1)).1
refresh_once_example =
    refresh_once issuer draws again "old" 200 accounts {tokens = tokens} refl refreshed

logout_ends_example :
    ((logout issuer "old" accounts).0 ≡ ok tt)
    × ((refresh issuer draws "old" (at_time 200 (logout issuer "old" accounts).1)).0
        ≡ err invalid_session)
logout_ends_example = logout_ends issuer draws "old" 200 accounts refl

abbrev signed_in : LogIn
signed_in = record { tokens = tokens; is_new_user = false }

normal : normalize_phone "+998 90 765-43-21" ≡ some "998907654321"
unfolding normalize_phone
normal = refl

verified : (verify_code issuer draws "90 123-45-67" "042137" accounts).0 ≡ ok signed_in
unfolding verify_code normalize_phone Otp.verify Otp.settle_guess Otp.read_digest command
    upsert_user statement issue_tokens role_flags store_refresh_token sign
verified = refl

verify_code_signs_in_example :
    (phone : String) × (normalize_phone "90 123-45-67" ≡ some phone)
    × (stored : String) × (get_key accounts.redis.now phone accounts.redis.codes ≡ some stored)
    × (str_eq stored (hash issuer.digest phone "042137") ≡ true)
    × (get_key
          (verify_code issuer draws "90 123-45-67" "042137" accounts).1.redis.now
          phone
          (verify_code issuer draws "90 123-45-67" "042137" accounts).1.redis.codes
        ≡ none)
    × (u : User) × (find_row
          (has_phone phone)
          (verify_code issuer draws "90 123-45-67" "042137" accounts).1.users
        ≡ some u)
    × (u.status ≡ active)
    × (new : RefreshToken) × (new.user_id ≡ u.id)
    × (new.rotated_from ≡ none)
    × (new.revoked_at ≡ none)
    × (new.expires_at ≡ 100 + refresh_token_ttl)
    × (new.token_hash ≡ "new")
    × ((verify_code issuer draws "90 123-45-67" "042137" accounts).1.tokens
        ≡ accounts.tokens ++ new ∷ [])
verify_code_signs_in_example =
    verify_code_signs_in issuer draws "90 123-45-67" "042137" accounts {l = signed_in} refl refl
      verified

normalize_phone_iff_example :
    (normalize_phone "0 90 765-43-21" ≡ some "998907654321")
    ↔ Spells (digits_of "0 90 765-43-21") "998907654321"
normalize_phone_iff_example = normalize_phone_iff "0 90 765-43-21" "998907654321"

prune_all_returns_example :
    (s' : Accounts) × (prune_all 3 0 accounts ≡ some (record { removed = 1; failure = none }, s'))
    × (expired_count 100 s'.tokens ≡ 0)
    × (lasting 100 s'.tokens ≡ 10 ∷ 11 ∷ [])
prune_all_returns_example = prune_all_returns 3 0 accounts refl (omega arith)
