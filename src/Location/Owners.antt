-- ===== src/Location/Owners.antt =====
-- The owners of stores: internal/modules/location/seller.go (register, me, RegisterSeller,
-- OwnerForUser), OwnerID and EnsureOwner of guard.go with their parts of repository.go, and the
-- FormatVerifier of internal/platform/tin/tin.go.
pub mod Registering
mod Tests
use binno_pta_2026_evaluatio.Prelude.{
  ℕ, zero, suc, ◌≡◌, Bool, true, false, not, ◌&&◌, Option, none, some, List, [], ◌∷◌, ◌++◌, String,
  str_eq, ◌==◌, if◌then◌else◌, find_row, count_rows, length, Result, ok, err,
}
use binno_pta_2026_evaluatio.Prelude.Int.{ℤ, pos}
use binno_pta_2026_evaluatio.Db.{Driver}
use binno_pta_2026_evaluatio.Authz.{Principal, AuthError, forbidden, require}
use binno_pta_2026_evaluatio.Catalog.LinePort.{codes}
use binno_pta_2026_evaluatio.Orders.Placement.{is_digits}

pub data OwnerStatus : Type 0 where
  pending active blocked : OwnerStatus

-- location.owners, without the particulars of the payment provider and the instant of verification,
-- which a registration leaves null.
pub record Owner : Type 0 where
  pub id : ℕ
  pub user_id : ℕ
  pub tin : String
  pub legal_name : String
  pub legal_form : String
  pub bank_account : String
  pub mfo : String
  pub status : OwnerStatus
  pub is_founding : Bool
  pub credit_limit : ℤ
  pub created_at : ℕ

-- `SellerRegistration`, and the body of the request.
pub record Registration : Type 0 where
  pub tin : String
  pub legal_name : String
  pub legal_form : String
  pub bank_account : String
  pub mfo : String

-- What the operations work with: google/uuid, the reader of ids of pgtype, strings.TrimSpace, and the
-- ids in identity.users.
pub record Onboarding : Type 0 where
  pub driver : Driver
  pub scan_uuid : String → Option ℕ
  pub trim_space : String → String
  pub users : List ℕ

-- `ErrInvalidRegistration`, `ErrAlreadyRegistered`, `ErrTINTaken`, a caller who is not signed in, no
-- owner account, and any other error.
pub data RegistrationError : Type 0 where
  invalid_registration already_registered tin_taken signed_out no_account internal :
      RegistrationError

-- `FormatVerifier.Verify`.
abbrev pub verify_tin : String → Bool
verify_tin number = (length (codes number) == 9) && is_digits (codes number)

-- Whether a column of `n` characters takes a text: what exceeds it may only be spaces.
fits : ℕ → List ℕ → Bool
fits n [] = true
fits zero (c ∷ cs) = (c == 32) && fits zero cs
fits (suc n) (c ∷ cs) = fits n cs

-- The row of `RegisterOwner`.
abbrev pub pending_owner : ℕ → ℕ → Registration → ℕ → Owner
pending_owner id user i now = record {
  id = id;
  user_id = user;
  tin = i.tin;
  legal_name = i.legal_name;
  legal_form = i.legal_form;
  bank_account = i.bank_account;
  mfo = i.mfo;
  status = pending;
  is_founding = false;
  credit_limit = pos 0;
  created_at = now;
}

-- The lengths of the columns, and the check of the TIN.
abbrev is_storable : Registration → Bool
is_storable i = fits 20 (codes i.bank_account) && fits 5 (codes i.mfo) && verify_tin i.tin

insert_owner :
    Onboarding → ℕ → ℕ → Registration → ℕ → List Owner → Result RegistrationError ℕ × List Owner
unfolding fits
insert_owner w id user i now owners =
    if not (is_storable i)
    then (err internal, owners)
    else if not (count_rows (λ o. o.id == id) owners == 0)
    then (err internal, owners)
    else if not (count_rows (λ o. o.user_id == user) owners == 0)
    then (err already_registered, owners)
    else if not (count_rows (λ o. str_eq o.tin i.tin) owners == 0)
    then (err tin_taken, owners)
    else if count_rows (λ u. u == user) w.users == 0
    then (err internal, owners)
    else (ok id, owners ++ pending_owner id user i now ∷ [])

printed :
    Driver → Result RegistrationError ℕ × List Owner → Result RegistrationError String × List Owner
printed d (ok id, owners) = (ok (d.uuid_text id), owners)
printed d (err e, owners) = (err e, owners)

-- `RegisterSeller`: a user id that pgtype does not read is null, which the column refuses. The fresh
-- id is an argument.
unfoldable pub register_seller :
    Onboarding
    → String
    → Registration
    → ℕ
    → ℕ
    → List Owner
    → Result RegistrationError String × List Owner
unfolding insert_owner printed
register_seller w user_id i id now owners = elim (w.scan_uuid user_id) [
  | none ↦ (err internal, owners)
  | some user ↦ printed w.driver (insert_owner w id user i now owners)
]

-- The handler `register`, once the caller is known; a body that is not JSON is none.
registered :
    Onboarding
    → Principal
    → Option Registration
    → ℕ
    → ℕ
    → List Owner
    → Result RegistrationError String × List Owner
registered w p none id now owners = (err invalid_registration, owners)
registered w p (some i) id now owners =
    if str_eq (w.trim_space i.legal_name) ""
    then (err invalid_registration, owners)
    else if not (verify_tin i.tin)
    then (err invalid_registration, owners)
    else register_seller w p.user_id i id now owners

-- `register`.
unfoldable pub register :
    Onboarding
    → Option Principal
    → Option Registration
    → ℕ
    → ℕ
    → List Owner
    → Result RegistrationError String × List Owner
unfolding registered
register w caller body id now owners = elim (require caller) [
  | err _ ↦ (err signed_out, owners)
  | ok p ↦ registered w p body id now owners
]

-- `OwnerForUser`: no row is compared with a null id.
unfoldable pub owner_for_user : Onboarding → String → List Owner → Option (String × OwnerStatus)
owner_for_user w user_id owners = elim (w.scan_uuid user_id) [
  | none ↦ none
  | some user ↦ elim (find_row (λ o. o.user_id == user) owners) [
    | none ↦ none
    | some o ↦ some (w.driver.uuid_text o.id, o.status)
  ]
]

-- The handler `me`.
unfoldable pub me :
    Onboarding → Option Principal → List Owner → Result RegistrationError (String × OwnerStatus)
me w caller owners = elim (require caller) [
  | err _ ↦ err signed_out
  | ok p ↦ elim (owner_for_user w p.user_id owners) [
    | none ↦ err no_account
    | some found ↦ ok found
  ]
]

-- `OwnerIDForUser`, where none is ErrNotFound.
unfoldable pub owner_id_for_user : Driver → List Owner → String → Option String
owner_id_for_user d owners user_id = elim (d.parse_uuid user_id) [
  | none ↦ none
  | some user ↦ elim (find_row (λ o. o.user_id == user) owners) [
    | none ↦ none
    | some o ↦ some (d.uuid_text o.id)
  ]
]

-- `OwnerBelongsToUser`.
unfoldable pub owner_belongs_to_user : Driver → List Owner → (user_id owner_id : String) → Bool
owner_belongs_to_user d owners user_id owner_id = elim (d.parse_uuid owner_id) [
  | none ↦ false
  | some owner ↦ elim (d.parse_uuid user_id) [
    | none ↦ false
    | some user ↦ not (count_rows (λ o. (o.id == owner) && (o.user_id == user)) owners == 0)
  ]
]

-- `OwnerID` of the guard.
unfoldable pub owner_id : Driver → List Owner → Option Principal → Result AuthError String
owner_id d owners caller = elim (require caller) [
  | err e ↦ err e
  | ok p ↦ elim (owner_id_for_user d owners p.user_id) [ none ↦ err forbidden | some id ↦ ok id ]
]

-- `EnsureOwner` of the guard.
unfoldable pub ensure_owner :
    Driver → List Owner → Option Principal → String → Result AuthError (Unit {0})
ensure_owner d owners caller owner = elim (require caller) [
  | err e ↦ err e
  | ok p ↦ if owner_belongs_to_user d owners p.user_id owner then ok tt else err forbidden
]
