-- ===== src/Location/Owners/Registering.antt =====
-- What a registration brings (internal/modules/location/seller.go and guard.go).
use binno_pta_2026_evaluatio.Prelude.{
  ℕ, ◌+◌, ◌≡◌, ◌≢◌, refl, Bool, true, ◌&&◌, Option, none, some, List, [], ◌∷◌, ◌++◌, String, arith,
  ◌==◌, find_row, count_rows, ok, Result-cases, inl, inr,
}
use binno_pta_2026_evaluatio.Authz.{Principal, require}
use binno_pta_2026_evaluatio.Location.Owners.{
  Owner, Registration, Onboarding, pending, pending_owner, insert_owner, printed, register_seller,
  registered, register, owner_for_user, me, owner_id_for_user, owner_belongs_to_user, owner_id,
  ensure_owner,
}

-- The rows of a user, and of an owner and a user.
abbrev pub of_user : ℕ → Owner → Bool
of_user user o = o.user_id == user

find_row-appended :
    (user : ℕ) (o : Owner) (owners : List Owner)
    → count_rows (of_user user) owners ≡ 0
    → o.user_id ≡ user
    → find_row (of_user user) (owners ++ o ∷ []) ≡ some o
find_row-appended user o [] free h = ground arith
find_row-appended user o (x ∷ xs) free h = ground (arith, find_row-appended user o xs)

count_rows-appended :
    (p : Owner → Bool) (o : Owner) (owners : List Owner)
    → p o ≡ true
    → count_rows p (owners ++ o ∷ []) ≡ count_rows p owners + 1
count_rows-appended p o [] h = ground arith
count_rows-appended p o (x ∷ xs) h = ground (arith, count_rows-appended p o xs h)

insert_owner-ok :
    (w : Onboarding) (id user now : ℕ) (i : Registration) (owners : List Owner) {new : ℕ}
    → (insert_owner w id user i now owners).0 ≡ ok new
    → (new ≡ id)
      × (count_rows (of_user user) owners ≡ 0)
      × ((insert_owner w id user i now owners).1 ≡ owners ++ pending_owner id user i now ∷ [])
unfolding insert_owner
insert_owner-ok w id user now i owners h = (ground arith, ground arith, ground arith)

insert_owner-refused :
    (w : Onboarding) (id user now : ℕ) (i : Registration) (owners : List Owner)
    → count_rows (of_user user) owners ≢ 0
    → (insert_owner w id user i now owners).1 ≡ owners
unfolding insert_owner
insert_owner-refused w id user now i owners h = ground arith

-- Who is registered, and as what.
abbrev IsRegistered : Onboarding → Principal → ℕ → ℕ → List Owner → ℕ → String → List Owner → Type 0
IsRegistered w p id now owners user text after =
    (i : Registration) × (require (some p) ≡ ok p)
    × (text ≡ w.driver.uuid_text id)
    × (count_rows (of_user user) owners ≡ 0)
    × (after ≡ owners ++ pending_owner id user i now ∷ [])

register-IsRegistered :
    (w : Onboarding) (p : Principal) (body : Option Registration) (id now user : ℕ)
    (owners : List Owner) {text : String}
    → w.scan_uuid p.user_id ≡ some user
    → (register w (some p) body id now owners).0 ≡ ok text
    → IsRegistered w p id now owners user text (register w (some p) body id now owners).1
unfolding register registered register_seller printed require
register-IsRegistered w p none id now user owners read h = absurd (ground arith)
register-IsRegistered w p (some i) id now user owners {text = text} read h =
    elim (Result-cases (insert_owner w id user i now owners).0) [
      | inr (e, bad) ↦ absurd (ground (arith, read, bad))
      | inl (new, inserted) ↦
          let (same, free, rows) = insert_owner-ok w id user now i owners {new = new} inserted in
          (
            i,
            ground (arith, read, inserted),
            ground (arith, read, inserted, same),
            free,
            ground (arith, read, inserted, rows),
          )
    ]

register-again :
    (w : Onboarding) (p : Principal) (body : Option Registration) (id now user : ℕ)
    (owners : List Owner)
    → w.scan_uuid p.user_id ≡ some user
    → count_rows (of_user user) owners ≢ 0
    → (register w (some p) body id now owners).1 ≡ owners
unfolding register registered register_seller printed require
register-again w p none id now user owners read h = ground arith
register-again w p (some i) id now user owners read h =
    elim (Result-cases (insert_owner w id user i now owners).0) [
      | inr (e, bad) ↦ ground (arith, read, bad, insert_owner-refused w id user now i owners h)
      | inl (new, inserted) ↦
          ground (arith, read, inserted, insert_owner-refused w id user now i owners h)
    ]

-- A registration that succeeds makes the caller the owner whose id it answers: OwnerID of the guard
-- answers that id, EnsureOwner admits the caller to it, `me` says that the account is pending, and a
-- further registration of the same caller changes nothing. The caller's id is one that google/uuid and
-- pgtype read alike.
pub register-owner_id :
    (w : Onboarding) (p : Principal) (body again : Option Registration) (id id' now now' user : ℕ)
    (owners : List Owner) {text : String}
    → w.scan_uuid p.user_id ≡ some user
    → w.driver.parse_uuid p.user_id ≡ some user
    → (register w (some p) body id now owners).0 ≡ ok text
    → let after = (register w (some p) body id now owners).1 in
      (owner_id w.driver after (some p) ≡ ok text)
      × (ensure_owner w.driver after (some p) text ≡ ok tt)
      × (me w (some p) after ≡ ok (text, pending))
      × ((register w (some p) again id' now' after).1 ≡ after)
unfolding owner_id owner_id_for_user ensure_owner owner_belongs_to_user me owner_for_user
register-owner_id w p body again id id' now now' user owners {text = text} scanned parsed h =
    let (i, signed, same, free, rows) =
      register-IsRegistered w p body id now user owners {text = text} scanned h in
    let after = (register w (some p) body id now owners).1 in
    let new = pending_owner id user i now in
    let found = find_row-appended user new owners free refl in
    let one = count_rows-appended (of_user user) new owners (ground arith) in
    let both =
      count_rows-appended (λ o. (o.id == id) && (o.user_id == user)) new owners (ground arith) in
    let back = w.driver.parse_uuid-uuid_text id in
    (
      ground (arith, signed, parsed, rows, found, same),
      ground (arith, signed, parsed, rows, both, same, back),
      ground (arith, signed, scanned, rows, found, same),
      register-again w p again id' now' user after scanned (ground (arith, rows, one)),
    )
