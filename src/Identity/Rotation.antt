-- ===== src/Identity/Rotation.antt =====
-- What becomes of a refresh token in internal/modules/identity/service.go.
use binno_pta_2026_evaluatio.Prelude.{
  ℕ, ◌+◌, ◌≤◌, ◌<◌, ◌≡◌, refl, sym, ap, ◌∙◌, Bool, Option, none, some, List, [], ◌∷◌, ◌++◌, String,
  if◌then◌else◌, ==-self, ok, err, arith, find_row, count_rows, update_rows, Bool-cases,
  Option-cases, inl, inr,
}
use binno_pta_2026_evaluatio.Identity.Tables.{
  AccountStatus, active, User, RefreshToken, invalid_session, Accounts, lookup_token, has_hash,
  has_user_id, is_live_of, is_live_session, revoked, statement, find_refresh_token,
  revoke_refresh_token, revoke_all_user_tokens, store_refresh_token, role_flags,
}
use binno_pta_2026_evaluatio.Identity.{
  Issuer, Draws, Tokens, refresh, refresh_found, refresh_live, rotate, issue_tokens, sign,
  roles_for, drawn_token, lifted, refresh_token_ttl,
}

-- No session of the user is left.
abbrev pub IsSignedOut : ℕ → Accounts → Type 0
IsSignedOut user_id s = count_rows (is_live_of user_id) s.tokens ≡ 0

pub revoked-signed_out :
    (user_id now : ℕ) (ts : List RefreshToken)
    → count_rows (is_live_of user_id) (update_rows (is_live_of user_id) (revoked now) ts) ≡ 0
revoked-signed_out user_id now [] = refl
revoked-signed_out user_id now (t ∷ ts) = ground (arith, revoked-signed_out user_id now ts)

-- A token whose hash was found, after a statement that revokes some live tokens.
abbrev pub closed : (RefreshToken → Bool) → ℕ → RefreshToken → RefreshToken
closed p now t = if p t then revoked now t else t

find_row-revoked :
    (hash : String) (p : RefreshToken → Bool) (now : ℕ) (ts rest : List RefreshToken)
    {t : RefreshToken}
    → find_row (has_hash hash) ts ≡ some t
    → find_row (has_hash hash) (update_rows p (revoked now) ts ++ rest) ≡ some (closed p now t)
find_row-revoked hash p now [] rest h = cc
find_row-revoked hash p now (x ∷ ts) rest {t = t} h = elim (Bool-cases (has_hash hash x)) [
  | inl here ↦ ground (arith, here)
  | inr there ↦ ground (arith, there, find_row-revoked hash p now ts rest {t = t})
]

pub refresh-revoked :
    (issuer : Issuer) (draws : Draws) (presented : String) (s : Accounts) {t : RefreshToken}
    {status : AccountStatus} {at : ℕ}
    → s.faults ≡ []
    → lookup_token (issuer.digest presented) s ≡ some (t, status)
    → t.revoked_at ≡ some at
    → refresh issuer draws presented s ≡ (
      err invalid_session,
      record s { tokens = update_rows (is_live_of t.user_id) (revoked s.clock) s.tokens },
    )
unfolding refresh refresh_found statement find_refresh_token revoke_all_user_tokens
refresh-revoked issuer draws presented s up found closed = ground (arith, found)

-- What `issue` leaves when it succeeds.
pub issue_tokens-ok :
    (issuer : Issuer) (draws : Draws) (user_id now : ℕ) (from : Option ℕ) (s : Accounts)
    {tokens : Tokens}
    → s.faults ≡ []
    → (issue_tokens issuer draws user_id now from s).0 ≡ ok tokens
    → (new : RefreshToken) × (new.user_id ≡ user_id)
      × (new.rotated_from ≡ from)
      × (new.revoked_at ≡ none)
      × (new.expires_at ≡ now + refresh_token_ttl)
      × (new.token_hash ≡ issuer.digest tokens.refresh_token)
      × ((issue_tokens issuer draws user_id now from s).1
          ≡ record s { tokens = s.tokens ++ new ∷ [] })
unfolding issue_tokens statement role_flags store_refresh_token sign roles_for drawn_token lifted
issue_tokens-ok issuer draws user_id now from s {tokens = tokens} up h = (
  record {
    id = draws.token_id;
    user_id = user_id;
    token_hash = issuer.digest tokens.refresh_token;
    issued_at = now;
    expires_at = now + refresh_token_ttl;
    revoked_at = none;
    rotated_from = from;
  },
  refl,
  refl,
  refl,
  refl,
  refl,
  ground arith,
)

refresh-live :
    (issuer : Issuer) (draws : Draws) (presented : String) (s : Accounts) {t : RefreshToken}
    → s.faults ≡ []
    → lookup_token (issuer.digest presented) s ≡ some (t, active)
    → t.revoked_at ≡ none
    → t.expires_at ≤ s.clock
    → refresh issuer draws presented s ≡ (err invalid_session, s)
unfolding refresh refresh_found refresh_live statement find_refresh_token
refresh-live issuer draws presented s up found live late = ground (arith, found)

-- The database after the rows of a rotated token are revoked.
abbrev pub rotated_db : RefreshToken → Accounts → Accounts
rotated_db t s = record s { tokens = update_rows (is_live_session t.id) (revoked s.clock) s.tokens }

refresh-ok :
    (issuer : Issuer) (draws : Draws) (presented : String) (s : Accounts) {tokens : Tokens}
    → s.faults ≡ []
    → (refresh issuer draws presented s).0 ≡ ok tokens
    → (t : RefreshToken) × (lookup_token (issuer.digest presented) s ≡ some (t, active))
      × (t.revoked_at ≡ none)
      × (s.clock < t.expires_at)
      × (refresh issuer draws presented s
          ≡ issue_tokens issuer draws t.user_id s.clock (some t.id) (rotated_db t s))
unfolding refresh refresh_found refresh_live rotate statement find_refresh_token
    revoke_refresh_token
refresh-ok issuer draws presented s up h =
    elim (Option-cases (lookup_token (issuer.digest presented) s)) [
      | inl missing ↦ absurd (ground (arith, missing))
      | inr ((t, status), found) ↦ (
        t,
        ground (arith, found),
        ground (arith, found),
        ground (arith, found),
        ground (arith, found),
      )
    ]

pub lookup-find :
    (hash : String) (s : Accounts) {t : RefreshToken} {status : AccountStatus}
    → lookup_token hash s ≡ some (t, status)
    → (find_row (has_hash hash) s.tokens ≡ some t)
      × ((u : User) × (find_row (has_user_id t.user_id) s.users ≡ some u) × (u.status ≡ status))
lookup-find hash s h = elim (Option-cases (find_row (has_hash hash) s.tokens)) [
  | inl missing ↦ absurd (ground (arith, missing))
  | inr (t, found) ↦ elim (Option-cases (find_row (has_user_id t.user_id) s.users)) [
    | inl missing ↦ absurd (ground (arith, found, missing))
    | inr (u, user) ↦
        (ground (arith, found, user), (u, ground (arith, found, user), ground (arith, found, user)))
  ]
]

-- The row of a token that a rotation or a logout revoked is still found.
pub lookup-revoked :
    (hash : String) (s : Accounts) (rest : List RefreshToken) {t : RefreshToken}
    {status : AccountStatus}
    → lookup_token hash s ≡ some (t, status)
    → lookup_token hash (record (rotated_db t s) { tokens = (rotated_db t s).tokens ++ rest })
      ≡ some (closed (is_live_session t.id) s.clock t, status)
lookup-revoked hash s rest {t = t} h =
    let (found, (u, user, same)) = lookup-find hash s h in
    let still = find_row-revoked hash (is_live_session t.id) s.clock s.tokens rest found in
    ground (arith, still, user, same)

lookup-closed :
    (hash : String) (s : Accounts) (rest : List RefreshToken) {t : RefreshToken}
    {status : AccountStatus}
    → lookup_token hash s ≡ some (t, status)
    → t.revoked_at ≡ none
    → lookup_token hash (record (rotated_db t s) { tokens = (rotated_db t s).tokens ++ rest })
      ≡ some (revoked s.clock t, status)
lookup-closed hash s rest {t = t} h live =
    ground (arith, lookup-revoked hash s rest h, ==-self t.id)

abbrev pub at_time : ℕ → Accounts → Accounts
at_time now s = record s { clock = now }

-- A refresh token is good for one rotation. With no statement failing: after `Refresh` took a token,
-- its account has a new session that starts at that instant and names the old one; presented once more,
-- at whatever time, the token is refused, and no session of that account is left.
pub refresh_once :
    (issuer : Issuer) (draws again : Draws) (presented : String) (later : ℕ) (s : Accounts)
    {tokens : Tokens}
    → s.faults ≡ []
    → (refresh issuer draws presented s).0 ≡ ok tokens
    → (t : RefreshToken) × (lookup_token (issuer.digest presented) s ≡ some (t, active))
      × ((new : RefreshToken) × (new.user_id ≡ t.user_id)
          × (new.rotated_from ≡ some t.id)
          × (new.expires_at ≡ s.clock + refresh_token_ttl)
          × ((refresh issuer draws presented s).1.tokens
              ≡ update_rows (is_live_session t.id) (revoked s.clock) s.tokens ++ new ∷ []))
      × ((refresh issuer again presented (at_time later (refresh issuer draws presented s).1)).0
          ≡ err invalid_session)
      × IsSignedOut t.user_id
          (refresh issuer again presented (at_time later (refresh issuer draws presented s).1)).1
refresh_once issuer draws again presented later s up h =
    let (t, found, live, _, step) = refresh-ok issuer draws presented s up h in
    let (new, mine, from, _, until, _, after) =
      issue_tokens-ok issuer draws t.user_id s.clock (some t.id) (rotated_db t s) up
        (sym (ap (λ r. r.0) step) ∙ h) in
    let there = lookup-closed (issuer.digest presented) s (new ∷ []) found live in
    let s1 : Accounts = record (rotated_db t s) { tokens = (rotated_db t s).tokens ++ new ∷ [] } in
    let now1 : (refresh issuer draws presented s).1 ≡ s1 = ap (λ r. r.1) step ∙ after in
    let second =
      refresh-revoked issuer again presented (at_time later s1) {t = revoked s.clock t} up there
        refl in
    (
      t,
      found,
      (new, mine, from, until, ap (λ x. x.tokens) now1),
      rw now1 (ap (λ r. r.0) second),
      rw now1 (rw second (revoked-signed_out t.user_id later s1.tokens)),
    )
