-- ===== src/Authz.antt =====
-- internal/platform/authz/authz.go, and the guard of internal/modules/location/guard.go with
-- `StoreBelongsToUser` of its repository.go. The caller of a request is `FromContext`.
pub mod Owning
use binno_pta_2026_evaluatio.Prelude.{
  ℕ, Bool, false, not, ◌&&◌, Option, none, some, List, String, str_eq, ◌==◌, if◌then◌else◌, Result,
  ok, err, count_rows,
}
use binno_pta_2026_evaluatio.Db.{Driver}

pub data Role : Type 0 where
  buyer seller operator : Role

-- `Principal`.
pub record Principal : Type 0 where
  pub user_id : String
  pub roles : List Role

pub data AuthError : Type 0 where
  unauthenticated forbidden : AuthError

abbrev role_rank : Role → ℕ
role_rank buyer = 0
role_rank seller = 1
role_rank operator = 2

-- `Has`.
abbrev pub has : Principal → Role → Bool
has p role = not (count_rows (λ r. role_rank r == role_rank role) p.roles == 0)

-- `Require`: a principal without a user id is not authenticated.
unfoldable pub require : Option Principal → Result AuthError Principal
require none = err unauthenticated
require (some p) = if str_eq p.user_id "" then err unauthenticated else ok p

-- `RequireRole`.
unfoldable pub require_role : Option Principal → Role → Result AuthError Principal
unfolding require
require_role caller role = elim (require caller) [
  | ok p ↦ if has p role then ok p else err forbidden
  | err e ↦ err e
]

-- `EnsureSelf`.
unfoldable pub ensure_self : Option Principal → String → Result AuthError (Unit {0})
unfolding require
ensure_self caller user_id = elim (require caller) [
  | ok p ↦ if str_eq p.user_id user_id then ok tt else err forbidden
  | err e ↦ err e
]

-- A store and the user of its owner: the join of location.stores and location.owners.
pub record Ownership : Type 0 where
  pub store_id : ℕ
  pub user_id : ℕ

belongs : List Ownership → Option ℕ → Option ℕ → Bool
belongs owned none user = false
belongs owned (some store) none = false
belongs owned (some store) (some user) =
    not (count_rows (λ o. (o.store_id == store) && (o.user_id == user)) owned == 0)

-- `StoreBelongsToUser`.
unfoldable pub store_belongs_to_user : Driver → List Ownership → (user_id store_id : String) → Bool
unfolding belongs
store_belongs_to_user d owned user_id store_id =
    belongs owned (d.parse_uuid store_id) (d.parse_uuid user_id)

-- `EnsureOwnsStore`.
unfoldable pub ensure_owns_store :
    Driver → List Ownership → Option Principal → String → Result AuthError (Unit {0})
unfolding require
ensure_owns_store d owned caller store_id = elim (require caller) [
  | err e ↦ err e
  | ok p ↦
      if not (has p seller)
      then err forbidden
      else if not (store_belongs_to_user d owned p.user_id store_id)
      then err forbidden
      else ok tt
]
