-- ===== src/Authz/Owning.antt =====
-- Whom the guards of internal/platform/authz/authz.go and internal/modules/location/guard.go admit.
use binno_pta_2026_evaluatio.Prelude.{
  ℕ, ◌≡◌, refl, ◌==◌, true, false, ◌&&◌, Option, none, some, List, String, str_eq, arith, Any,
  Any-map, Any-count_rows, ok, Result-cases, inl, inr,
}
use binno_pta_2026_evaluatio.Db.{Driver}
use binno_pta_2026_evaluatio.Authz.{
  Principal, Role, seller, Ownership, role_rank, has, require, require_role, ensure_self,
  ensure_owns_store, store_belongs_to_user, belongs,
}

-- The caller is signed in.
pub record IsCaller (caller : Option Principal) (p : Principal) : Type 0 where
  pub known : caller ≡ some p
  pub signed_in : str_eq p.user_id "" ≡ false

abbrev pub HasRole : Role → Principal → Type 0
HasRole role p = Any (λ r. r ≡ role) p.roles

-- The caller is a seller and the user of the store's owner.
pub record OwnsStore (d : Driver) (owned : List Ownership) (caller : Option Principal) (store : ℕ)
    : Type 0 where
  pub principal : Principal
  pub user : ℕ
  pub is_caller : IsCaller caller principal
  pub role : HasRole seller principal
  pub parsed : d.parse_uuid principal.user_id ≡ some user
  pub owns : Any (λ o. (o.store_id ≡ store) × (o.user_id ≡ user)) owned

pub require_lem :
    (caller : Option Principal) {p : Principal} → require caller ≡ ok p → IsCaller caller p
unfolding require
require_lem none h = cc
require_lem (some q) h = record { known = ground arith; signed_in = ground arith }

same_role : (r s : Role) → (role_rank r == role_rank s) ≡ true → r ≡ s
same_role r s h = ground arith

pub has-HasRole : (p : Principal) (role : Role) → has p role ≡ true → HasRole role p
has-HasRole p role h =
    Any-map (λ r k. same_role r role k) p.roles
      (Any-count_rows (λ r. role_rank r == role_rank role) p.roles (ground (arith, h)))

pub require_role_lem :
    (caller : Option Principal) (role : Role) {p : Principal}
    → require_role caller role ≡ ok p
    → IsCaller caller p × HasRole role p
unfolding require_role
require_role_lem caller role {p = p} h = elim (Result-cases (require caller)) [
  | inl (q, e) ↦
      let same : q ≡ p = ground (arith, e) in
      (rw same at (require_lem caller e), has-HasRole p role (ground (arith, e, same)))
  | inr (x, e) ↦ absurd (ground (arith, e))
]

pub self_lem :
    (caller : Option Principal) (user_id : String)
    → ensure_self caller user_id ≡ ok tt
    → (p : Principal) × IsCaller caller p × (str_eq p.user_id user_id ≡ true)
unfolding ensure_self
self_lem caller user_id h = elim (Result-cases (require caller)) [
  | inl (p, e) ↦ (p, require_lem caller e, ground (arith, e))
  | inr (x, e) ↦ absurd (ground (arith, e))
]

belongs_lem :
    (owned : List Ownership) (user : Option ℕ) (store : ℕ)
    → belongs owned (some store) user ≡ true
    → (u : ℕ) × (user ≡ some u) × Any (λ o. (o.store_id ≡ store) × (o.user_id ≡ u)) owned
unfolding belongs
belongs_lem owned none store h = cc
belongs_lem owned (some u) store h = (
  u,
  refl,
  Any-map (λ o k. (ground (arith, k), ground (arith, k))) owned
      (Any-count_rows (λ o. (o.store_id == store) && (o.user_id == u)) owned (ground (arith, h))),
)

-- A caller whom the guard admits to the printed id of a store owns it.
pub ensure_owns_store-OwnsStore :
    (d : Driver) (owned : List Ownership) (caller : Option Principal) (store : ℕ)
    → ensure_owns_store d owned caller (d.uuid_text store) ≡ ok tt
    → OwnsStore d owned caller store
unfolding ensure_owns_store store_belongs_to_user
ensure_owns_store-OwnsStore d owned caller store h = elim (Result-cases (require caller)) [
  | inr (x, e) ↦ absurd (ground (arith, e))
  | inl (p, e) ↦
      let back = d.parse_uuid-uuid_text store in
      let (u, parsed, owns) =
        belongs_lem owned (d.parse_uuid p.user_id) store (ground (arith, e, back)) in
      record {
        principal = p;
        user = u;
        is_caller = require_lem caller e;
        role = has-HasRole p seller (ground (arith, e));
        parsed = parsed;
        owns = owns;
      }
]
