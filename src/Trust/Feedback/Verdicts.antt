-- ===== src/Trust/Feedback/Verdicts.antt =====
-- Who leaves feedback through internal/modules/trust, and how often.
use binno_pta_2026_evaluatio.Prelude.{
  ℕ, ◌+◌, ◌≤◌, ◌≡◌, ap, Bool, true, false, List, [], ◌∷◌, ◌++◌, String, arith, ◌==◌, if◌then◌else◌,
  count_rows, ok, refl, sym, ◌∙◌, some, str_eq, ◌⊎◌, Result-cases, Option-cases, inl, inr,
}
use binno_pta_2026_evaluatio.Db.{Db, Driver, FeedbackRow}
use binno_pta_2026_evaluatio.Tx.{Ending, commit}
use binno_pta_2026_evaluatio.Tx.Dedup.{reserve_for, reserve_for-frame}
use binno_pta_2026_evaluatio.Authz.{Principal, ensure_self}
use binno_pta_2026_evaluatio.Authz.Owning.{IsCaller, self_lem}
use binno_pta_2026_evaluatio.Orders.Repository.Replay.{IsBound, reserve_for-cases}
use binno_pta_2026_evaluatio.Orders.Service.Access.{Named}
use binno_pta_2026_evaluatio.Orders.Status.{Status, closed, status_eq}
use binno_pta_2026_evaluatio.Orders.Repository.{write_outbox, get_order}
use binno_pta_2026_evaluatio.Orders.Service.{Request, summary}
use binno_pta_2026_evaluatio.Trust.Feedback.{
  FeedbackInput, Verdict, give_feedback, by_caller, on_order, of_buyer, store_feedback,
  feedback_claimed, feedback_body, feedback_row,
}

-- Whether a verdict on this order is kept.
abbrev pub verdicts : ℕ → Db → ℕ
verdicts order db = count_rows (λ f. f.order_id == order) db.feedback

count_rows-one :
    (p : FeedbackRow → Bool) (fs : List FeedbackRow) (new : FeedbackRow)
    → count_rows p (fs ++ new ∷ []) ≡ count_rows p fs + (if p new then 1 else 0)
count_rows-one p [] new = ground arith
count_rows-one p (f ∷ fs) new = ground (arith, count_rows-one p fs new)

feedback_claimed-verdicts :
    (d : Driver) (v : Verdict) (j store at order : ℕ) (replay : Bool) (db : Db)
    {e : Ending (Unit {0})} {db' : Db}
    → verdicts order db ≤ 1
    → feedback_claimed d v j store at replay db ≡ ok (e, db')
    → verdicts order db' ≤ 1
unfolding feedback_claimed write_outbox
feedback_claimed-verdicts d v j store at order true db few h = ground arith
feedback_claimed-verdicts d v j store at order false db few h =
    ground
      (arith, count_rows-one (λ f. f.order_id == order) db.feedback (feedback_row j store v at))

store_feedback-verdicts :
    (d : Driver) (key : String) (v : Verdict) (at order : ℕ) (db : Db)
    → verdicts order db ≤ 1
    → verdicts order (store_feedback d key v at db).1 ≤ 1
unfolding store_feedback feedback_body
store_feedback-verdicts d key v at order db few =
    elim (Option-cases (d.parse_uuid v.given.order_id)) [
      | inl bad ↦ ground (arith, bad)
      | inr (j, parsed) ↦ elim (Option-cases (d.parse_uuid v.store_id)) [
        | inl bad ↦ ground (arith, parsed, bad)
        | inr (store, stored) ↦ elim (Result-cases (reserve_for key j at db)) [
          | inr (e, refused) ↦ ground (arith, parsed, stored, refused)
          | inl ((replay, db1), claimed) ↦
              let same =
                ap (λ (x : Db). x.feedback)
                  (reserve_for-frame key j at db {replay = replay} {db' = db1} claimed) in
              elim (Result-cases (feedback_claimed d v j store at replay db1)) [
                | inr (e, bad) ↦ ground (arith, parsed, stored, claimed, bad)
                | inl ((ending, db2), ran) ↦
                    let kept =
                      feedback_claimed-verdicts d v j store at order replay db1 {e = ending}
                        {db' = db2} (rw same few) ran in
                    ground (arith, parsed, stored, claimed, ran, kept)
              ]
        ]
      ]
    ]

-- The answers to a sequence of verdicts.
abbrev pub give_all : List (Request × FeedbackInput) → Db → Db
give_all [] db = db
give_all ((r, i) ∷ rest) db = give_all rest (give_feedback r i db).1

give_feedback-verdicts :
    (r : Request) (i : FeedbackInput) (order : ℕ) (db : Db)
    → verdicts order db ≤ 1
    → verdicts order (give_feedback r i db).1 ≤ 1
unfolding give_feedback by_caller on_order of_buyer
give_feedback-verdicts r i order db few =
    let t : FeedbackInput = record i { comment = r.texts.trim_space i.comment } in
    elim (Result-cases (summary r.driver t.order_id db)) [
      | inr (e, missing) ↦ ground (arith, missing)
      | inl (found, there) ↦
          let v : Verdict = record {
            given = t;
            store_id = found.store_id;
            buyer_id = found.buyer_id;
          } in
          ground (arith, there, store_feedback-verdicts r.driver r.key v r.at order db few)
    ]

-- However buyers leave feedback, whoever calls and under whatever operation keys: no order has a
-- second verdict, if none had before.
pub give_all-verdicts :
    (calls : List (Request × FeedbackInput)) (order : ℕ) (db : Db)
    → verdicts order db ≤ 1
    → verdicts order (give_all calls db) ≤ 1
give_all-verdicts [] order db few = few
give_all-verdicts ((r, i) ∷ rest) order db few =
    give_all-verdicts rest order (give_feedback r i db).1 (give_feedback-verdicts r i order db few)

-- One verdict is added, with what the buyer said, for an order that had none.
pub record Given (order store : ℕ) (i : FeedbackInput) (before after : Db) : Type 0 where
  pub first : verdicts order before ≡ 0
  pub row : FeedbackRow
  pub of_order : row.order_id ≡ order
  pub of_store : row.store_id ≡ store
  pub verdict : row.had_problem ≡ i.had_problem
  pub tags : row.tags ≡ i.tags
  pub channel : row.channel ≡ i.channel
  pub added : after.feedback ≡ before.feedback ++ row ∷ []

feedback_claimed-Given :
    (d : Driver) (v : Verdict) (order store at : ℕ) (db : Db) {e : Ending (Unit {0})} {db' : Db}
    → feedback_claimed d v order store at false db ≡ ok (e, db')
    → (e ≡ commit tt) × Given order store v.given db db'
unfolding feedback_claimed write_outbox
feedback_claimed-Given d v order store at db h = (
  ground arith,
  record {
    first = ground arith;
    row = feedback_row order store v at;
    of_order = refl;
    of_store = refl;
    verdict = refl;
    tags = refl;
    channel = refl;
    added = ground arith;
  },
)

-- A repetition under a key that is bound to the order changes nothing; else a verdict is given.
abbrev pub IsGiven : String → ℕ → ℕ → FeedbackInput → Db → Db → Type 0
IsGiven key order store i db db' = (IsBound key order db × (db' ≡ db)) ⊎ Given order store i db db'

store_feedback-IsGiven :
    (d : Driver) (key : String) (v : Verdict) (order store at : ℕ) (db : Db)
    → d.parse_uuid v.given.order_id ≡ some order
    → d.parse_uuid v.store_id ≡ some store
    → (store_feedback d key v at db).0 ≡ ok tt
    → IsGiven key order store v.given db (store_feedback d key v at db).1
unfolding store_feedback feedback_body
store_feedback-IsGiven d key v order store at db parsed known h =
    elim (Result-cases (reserve_for key order at db)) [
      | inr (x, refused) ↦ absurd (ground (arith, parsed, known, refused))
      | inl ((replay, db1), claimed) ↦
          elim (reserve_for-cases key order at db {replay = replay} {db' = db1} claimed) [
            | inr (again, bound, _) ↦ inl (bound, replayed again claimed)
            | inl (fresh, _, added) ↦
                elim (Result-cases (feedback_claimed d v order store at false db1)) [
                  | inr (x, bad) ↦ absurd (ground (arith, parsed, known, claimed, fresh, bad))
                  | inl ((e, db2), ran) ↦
                      let (committed, given) =
                        feedback_claimed-Given d v order store at db1 {e = e} {db' = db2} ran in
                      let same : db1.feedback ≡ db.feedback = ap (λ (x : Db). x.feedback) added in
                      let final : db2 ≡ (store_feedback d key v at db).1 =
                        ground (arith, parsed, known, claimed, fresh, ran, committed) in
                      inr (record {
                        row = given.row;
                        of_order = given.of_order;
                        of_store = given.of_store;
                        verdict = given.verdict;
                        tags = given.tags;
                        channel = given.channel;
                        first = ap (count_rows (λ f. f.order_id == order)) (sym same) ∙ given.first;
                        added =
                            ap (λ (x : Db). x.feedback) (sym final)
                            ∙ (given.added ∙ ap (λ fs. fs ++ given.row ∷ []) same);
                      })
                ]
          ]
    ]
  where
    replayed :
        {replay : Bool} {db1 : Db}
        → replay ≡ true
        → reserve_for key order at db ≡ ok (replay, db1)
        → (store_feedback d key v at db).1 ≡ db
    replayed again claimed = ground (arith, parsed, known, again, claimed)

closed_lem : (s : Status) → status_eq s closed ≡ true → s ≡ closed
unfolding status_eq
closed_lem s h = ground arith

-- Feedback that succeeds names an order that is closed, and comes from the signed-in user who placed
-- it. Unless it repeats a request under a key that is bound to this order, and changes nothing, the
-- order had no verdict, and one is added: of this order and its store, with the verdict, the tags and
-- the channel of the request.
pub give_feedback-buyer :
    (r : Request) (i : FeedbackInput) (db : Db)
    → (give_feedback r i db).0 ≡ ok tt
    → (n : Named r.driver i.order_id db) × (n.order.status ≡ closed)
      × (p : Principal) × IsCaller r.caller p
      × (str_eq p.user_id (r.driver.uuid_text n.order.buyer_id) ≡ true)
      × IsGiven r.key n.order_id n.order.store_id i db (give_feedback r i db).1
unfolding give_feedback by_caller on_order of_buyer summary
give_feedback-buyer r i db h =
    let t : FeedbackInput = record i { comment = r.texts.trim_space i.comment } in
    elim (Option-cases (r.driver.parse_uuid i.order_id)) [
      | inl malformed ↦ absurd (ground (arith, malformed))
      | inr (order, parsed) ↦ elim (Option-cases (get_order order db)) [
        | inl missing ↦ absurd (ground (arith, parsed, missing))
        | inr (o, found) ↦
            let v : Verdict = record {
              given = t;
              store_id = r.driver.uuid_text o.store_id;
              buyer_id = r.driver.uuid_text o.buyer_id;
            } in
            let mine : ensure_self r.caller (r.driver.uuid_text o.buyer_id) ≡ ok tt =
              ground (arith, parsed, found) in
            let (p, is_caller, self) = self_lem r.caller (r.driver.uuid_text o.buyer_id) mine in
            let over : status_eq o.status closed ≡ true = ground (arith, parsed, found, mine) in
            let done : (store_feedback r.driver r.key v r.at db).0 ≡ ok tt =
              ground (arith, parsed, found, mine, over) in
            let same : (give_feedback r i db).1 ≡ (store_feedback r.driver r.key v r.at db).1 =
              ground (arith, parsed, found, mine, over) in
            let given =
              store_feedback-IsGiven r.driver r.key v order o.store_id r.at db parsed
                (r.driver.parse_uuid-uuid_text o.store_id) done in
            (
              record { order_id = order; order = o; parsed = parsed; found = found },
              closed_lem o.status over,
              p,
              is_caller,
              self,
              rw same (of_input given),
            )
      ]
    ]
  where
    of_input :
        {order store : ℕ} {db' : Db}
        → IsGiven r.key order store (record i { comment = r.texts.trim_space i.comment }) db db'
        → IsGiven r.key order store i db db'
    of_input (inl bound) = inl bound
    of_input (inr g) = inr (record {
      first = g.first;
      row = g.row;
      of_order = g.of_order;
      of_store = g.of_store;
      verdict = g.verdict;
      tags = g.tags;
      channel = g.channel;
      added = g.added;
    })
