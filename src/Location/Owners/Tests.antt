-- ===== src/Location/Owners/Tests.antt =====
-- Witness for registration: a user becomes an owner and applies once more.
use binno_pta_2026_evaluatio.Prelude.{◌≡◌, refl, some, List, [], ◌∷◌, ok}
use binno_pta_2026_evaluatio.Db.Sample.{sample_driver, row, read}
use binno_pta_2026_evaluatio.Authz.{Principal, require}
use binno_pta_2026_evaluatio.Location.Owners.{
  Owner, Registration, Onboarding, pending, register, register_seller, owner_id, ensure_owner, me,
}
use binno_pta_2026_evaluatio.Location.Owners.Registering.{register-owner_id}

abbrev office : Onboarding
office = record { driver = sample_driver; scan_uuid = read; trim_space = λ s. s; users = 4 ∷ [] }

abbrev applicant : Principal
applicant = record { user_id = row 5; roles = [] }

abbrev form : Registration
form = record {
  tin = "123456789";
  legal_name = "Bricks";
  legal_form = "llc";
  bank_account = "20208000";
  mfo = "00873";
}

abbrev after : List Owner
after = (register office (some applicant) (some form) 3 50 []).1

accepted : (register office (some applicant) (some form) 3 50 []).0 ≡ ok (row 4)
unfolding register register_seller require
accepted = refl

register-owner_id_example :
    (owner_id sample_driver after (some applicant) ≡ ok (row 4))
    × (ensure_owner sample_driver after (some applicant) (row 4) ≡ ok tt)
    × (me office (some applicant) after ≡ ok (row 4, pending))
    × ((register office (some applicant) (some form) 9 60 after).1 ≡ after)
register-owner_id_example =
    register-owner_id office applicant (some form) (some form) 3 9 50 60 4 [] refl refl accepted
