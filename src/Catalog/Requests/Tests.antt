-- ===== src/Catalog/Requests/Tests.antt =====
-- Witness for catalogue requests: one that was rejected, and an operator who tries once more.
use binno_pta_2026_evaluatio.Prelude.{refl, true, none, some, List, [], ◌∷◌}
use binno_pta_2026_evaluatio.Db.{Db, CatalogRequest, rejected}
use binno_pta_2026_evaluatio.Db.Sample.{sample_driver, sample_db, row}
use binno_pta_2026_evaluatio.Authz.{Role}
use binno_pta_2026_evaluatio.Orders.Service.{Request}
use binno_pta_2026_evaluatio.Catalog.Requests.Resolving.{
  IsDecided, RequestCall, ask, decide, answer_requests, answer_requests-IsDecided,
}

abbrev refused : CatalogRequest
refused = record {
  id = 6;
  store_id = 1;
  name = "lime";
  unit = "kg";
  description = none;
  image_url = none;
  status = rejected;
  product_id = none;
  reject_reason = some "no";
  resolved_at = some 9;
  created_at = 1;
}

abbrev before : Db
before = record sample_db { requests = refused ∷ [] }

abbrev operator : Request
operator = record {
  driver = sample_driver;
  texts = record {
    is_uuid = λ s. true;
    trim_space = λ s. s;
    parse_url = λ s. none;
    digest = λ s. s;
  };
  owned = (record { store_id = 1; user_id = 4 }) ∷ [];
  caller = some (record { user_id = row 5; roles = Role.seller ∷ Role.operator ∷ [] });
  key = "k1";
  at = 50;
}

abbrev calls : List RequestCall
calls =
    decide operator
      (record { id = row 7; status = "added"; product_id = row 4; reject_reason = "" })
    ∷ ask (record operator { key = "k2" })
        (record { store_id = row 2; name = "sand"; unit = "t"; description = ""; image_url = "" }) 7
    ∷ []

answer_requests-IsDecided_example : IsDecided 6 refused (answer_requests calls before)
answer_requests-IsDecided_example = answer_requests-IsDecided calls 6 refused before (refl, refl)
