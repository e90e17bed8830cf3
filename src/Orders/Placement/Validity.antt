-- ===== src/Orders/Placement/Validity.antt =====
-- `validateCreate` of internal/modules/orders/service.go against the rules for an order request.
use text.Mathlib.TextEquality.{eq_iff}
use binno_pta_2026_evaluatio.Prelude.{
  ℕ, ◌≤◌, ◌<◌, ◌≡◌, ◌≢◌, refl, sym, ◌∙◌, Bool, true, false, not, ◌&&◌, ◌||◌, ◌↔◌, ◌⊎◌, inl, inr,
  Option, none, some, List, [], ◌∷◌, String, str_eq, arith, length, All, ltb, ◌==◌, ==_iff,
  &&-eq-true, Bool-cases,
}
use binno_pta_2026_evaluatio.Prelude.Int.{pos, leb_ℤ, ◌≤ℤ◌}
use binno_pta_2026_evaluatio.Db.{Point}
use binno_pta_2026_evaluatio.Money.{is_digit}
use binno_pta_2026_evaluatio.Catalog.LinePort.{codes}
use binno_pta_2026_evaluatio.Orders.Service.{Texts, byte_length}
use binno_pta_2026_evaluatio.Orders.Placement.Items.{IsItem, IsDistinct, items_iff}
use binno_pta_2026_evaluatio.Orders.Placement.{
  ItemInput, CreateInput, max_order_items, is_digits, valid_items, validate_create, valid_dropoff,
  is_empty,
}

-- The rules for an order request.
pub record IsRequest (t : Texts) (valid_point : Point → Bool) (i : CreateInput) : Type 0 where
  pub store : t.is_uuid i.store_id ≡ true
  pub district : pos 1 ≤ℤ i.district_id
  pub some_items : 0 < length i.items
  pub few_items : length i.items ≤ 100
  pub buyer : (i.buyer_type ≡ "individual") ⊎ (i.buyer_type ≡ "legal_entity")
  pub fulfillment : (i.fulfillment ≡ "delivery") ⊎ (i.fulfillment ≡ "pickup")
  pub dropoff :
      (i.fulfillment ≢ "delivery")
      ⊎ ((p : Point) × (i.dropoff ≡ some p)
          × (valid_point p ≡ true)
          × (t.trim_space i.dropoff_address ≢ ""))
  pub tin :
      (i.buyer_type ≢ "legal_entity")
      ⊎ ((byte_length i.buyer_tin ≡ 9) × All (λ c. is_digit c ≡ true) (codes i.buyer_tin))
  pub items : All (IsItem t) i.items
  pub distinct : IsDistinct i.items

is_digits_iff : (cs : List ℕ) → (is_digits cs ≡ true) ↔ All (λ c. is_digit c ≡ true) cs
is_digits_iff [] = ((λ h. tt), (λ h. refl))
is_digits_iff (c ∷ cs) = (
  (λ h. let (a, b) = &&-eq-true (is_digit c) (is_digits cs) h in (a, (is_digits_iff cs).0 b)),
  (λ h. rw h.0 ((is_digits_iff cs).1 h.1)),
)

-- The four tests of `validateCreate`, as one conjunction.
all_tests : Texts → (Point → Bool) → CreateInput → Bool
unfolding valid_dropoff
all_tests t valid_point i =
    t.is_uuid i.store_id
    && (not (leb_ℤ i.district_id (pos 0))
        && (not (is_empty i.items)
            && (not (ltb max_order_items (length i.items))
                && ((str_eq i.buyer_type "individual" || str_eq i.buyer_type "legal_entity")
                    && ((str_eq i.fulfillment "delivery" || str_eq i.fulfillment "pickup")
                        && (not (
                              str_eq i.fulfillment "delivery"
                              && not (valid_dropoff t valid_point i i.dropoff))
                            && (not (
                                  str_eq i.buyer_type "legal_entity"
                                  && (not (byte_length i.buyer_tin == 9)
                                      || not (is_digits (codes i.buyer_tin))))
                                && valid_items t [] i.items)))))))

validate_create-all_tests :
    (t : Texts) (valid_point : Point → Bool) (i : CreateInput)
    → validate_create t valid_point i ≡ all_tests t valid_point i
unfolding validate_create all_tests
validate_create-all_tests t valid_point i = ground arith

two_texts : (s a b : String) → ((str_eq s a || str_eq s b) ≡ true) ↔ ((s ≡ a) ⊎ (s ≡ b))
two_texts s a b = (
  (λ h. elim (Bool-cases (str_eq s a)) [
    | inl first ↦ inl ((eq_iff s a).0 first)
    | inr other ↦ inr ((eq_iff s b).0 (ground (arith, other)))
  ]),
  (λ h. elim h [
    | inl first ↦ rw ((eq_iff s a).1 first) refl
    | inr second ↦ let e = (eq_iff s b).1 second in ground arith
  ]),
)

dropoff_iff :
    (t : Texts) (valid_point : Point → Bool) (i : CreateInput)
    → (valid_dropoff t valid_point i i.dropoff ≡ true) ↔ (
        (p : Point) × (i.dropoff ≡ some p)
        × (valid_point p ≡ true)
        × (t.trim_space i.dropoff_address ≢ ""))
unfolding valid_dropoff
dropoff_iff t valid_point i = (sound i.dropoff, λ (p, e, v, a). rw e (complete p v a))
  where
    sound :
        (o : Option Point)
        → valid_dropoff t valid_point i o ≡ true
        → (p : Point) × (o ≡ some p)
          × (valid_point p ≡ true)
          × (t.trim_space i.dropoff_address ≢ "")
    sound none h = cc
    sound (some p) h =
        let (v, a) = &&-eq-true (valid_point p) _ h in
        (p, refl, v, λ e. let k = (eq_iff (t.trim_space i.dropoff_address) "").1 e in ground arith)

    complete :
        (p : Point)
        → valid_point p ≡ true
        → t.trim_space i.dropoff_address ≢ ""
        → (valid_point p && not (str_eq (t.trim_space i.dropoff_address) "")) ≡ true
    complete p v a = elim (Bool-cases (str_eq (t.trim_space i.dropoff_address) "")) [
      | inl blank ↦ absurd (a ((eq_iff (t.trim_space i.dropoff_address) "").0 blank))
      | inr filled ↦ rw (v, filled) refl
    ]

-- A test that is made only of requests of one kind.
only_if :
    {P : Type 0} (s a : String) (b : Bool)
    → (b ≡ true) ↔ P
    → (not (str_eq s a && not b) ≡ true) ↔ ((s ≢ a) ⊎ P)
only_if s a b iff = (
  (λ h. elim (Bool-cases (str_eq s a)) [
    | inl same ↦ inr (iff.0 (ground (arith, same)))
    | inr other ↦ inl (λ e. let k = (eq_iff s a).1 e in cc)
  ]),
  (λ h. elim h [
    | inl differ ↦ elim (Bool-cases (str_eq s a)) [
      | inl same ↦ absurd (differ ((eq_iff s a).0 same))
      | inr other ↦ rw other refl
    ]
    | inr fine ↦ let k = iff.1 fine in ground arith
  ]),
)

tin_iff :
    (tin : String)
    → ((byte_length tin == 9) && is_digits (codes tin) ≡ true)
      ↔ ((byte_length tin ≡ 9) × All (λ c. is_digit c ≡ true) (codes tin))
tin_iff tin = (
  (λ h.
      let (a, b) = &&-eq-true (byte_length tin == 9) (is_digits (codes tin)) h in
      ((==_iff (byte_length tin) 9).0 a, (is_digits_iff (codes tin)).0 b)),
  (λ h. rw ((==_iff (byte_length tin) 9).1 h.0) ((is_digits_iff (codes tin)).1 h.1)),
)

not_either : (a b c : Bool) → not (a && (not b || not c)) ≡ not (a && not (b && c))
not_either a b c = ground arith

nonempty_iff : (is : List ItemInput) → (not (is_empty is) ≡ true) ↔ (0 < length is)
nonempty_iff [] = ((λ h. cc), (λ h. absurd (omega arith)))
nonempty_iff (i ∷ is) = ((λ h. omega arith), (λ h. refl))

IsRequest-of_tests :
    (t : Texts) (valid_point : Point → Bool) (i : CreateInput)
    → all_tests t valid_point i ≡ true
    → IsRequest t valid_point i
unfolding all_tests
IsRequest-of_tests t valid_point i h =
    let (store, h1) = &&-eq-true (t.is_uuid i.store_id) _ h in
    let (district, h2) = &&-eq-true (not (leb_ℤ i.district_id (pos 0))) _ h1 in
    let (some_items, h3) = &&-eq-true (not (is_empty i.items)) _ h2 in
    let (few_items, h4) = &&-eq-true (not (ltb max_order_items (length i.items))) _ h3 in
    let (buyer, h5) =
      &&-eq-true (str_eq i.buyer_type "individual" || str_eq i.buyer_type "legal_entity") _ h4 in
    let (fulfillment, h6) =
      &&-eq-true (str_eq i.fulfillment "delivery" || str_eq i.fulfillment "pickup") _ h5 in
    let (dropoff, h7) =
      &&-eq-true
        (not (str_eq i.fulfillment "delivery" && not (valid_dropoff t valid_point i i.dropoff))) _
        h6 in
    let (tin, items) =
      &&-eq-true
        (not (
          str_eq i.buyer_type "legal_entity"
          && (not (byte_length i.buyer_tin == 9) || not (is_digits (codes i.buyer_tin)))))
        _ h7 in
    record {
      store = store;
      district = ground arith;
      some_items = (nonempty_iff i.items).0 some_items;
      few_items = ground arith;
      buyer = (two_texts i.buyer_type "individual" "legal_entity").0 buyer;
      fulfillment = (two_texts i.fulfillment "delivery" "pickup").0 fulfillment;
      dropoff =
          (only_if i.fulfillment "delivery" (valid_dropoff t valid_point i i.dropoff)
              (dropoff_iff t valid_point i)).0
            dropoff;
      tin =
          (only_if i.buyer_type "legal_entity"
              ((byte_length i.buyer_tin == 9) && is_digits (codes i.buyer_tin))
              (tin_iff i.buyer_tin)).0
            (sym (
                not_either (str_eq i.buyer_type "legal_entity") (byte_length i.buyer_tin == 9)
                  (is_digits (codes i.buyer_tin)))
              ∙ tin);
      items = ((items_iff t i.items).0 items).0;
      distinct = ((items_iff t i.items).0 items).1;
    }

tests-of_IsRequest :
    (t : Texts) (valid_point : Point → Bool) (i : CreateInput)
    → IsRequest t valid_point i
    → all_tests t valid_point i ≡ true
unfolding all_tests
tests-of_IsRequest t valid_point i r =
    let district : leb_ℤ i.district_id (pos 0) ≡ false = ground (arith, r.district) in
    let some_items = (nonempty_iff i.items).1 r.some_items in
    let few_items : ltb max_order_items (length i.items) ≡ false = ground (arith, r.few_items) in
    let buyer = (two_texts i.buyer_type "individual" "legal_entity").1 r.buyer in
    let fulfillment = (two_texts i.fulfillment "delivery" "pickup").1 r.fulfillment in
    let dropoff =
      (only_if i.fulfillment "delivery" (valid_dropoff t valid_point i i.dropoff)
          (dropoff_iff t valid_point i)).1
        r.dropoff in
    let tin =
      not_either (str_eq i.buyer_type "legal_entity") (byte_length i.buyer_tin == 9)
        (is_digits (codes i.buyer_tin))
      ∙ (only_if i.buyer_type "legal_entity"
            ((byte_length i.buyer_tin == 9) && is_digits (codes i.buyer_tin))
            (tin_iff i.buyer_tin)).1
          r.tin in
    let items = (items_iff t i.items).1 (r.items, r.distinct) in
    rw (r.store, district, some_items, few_items, buyer, fulfillment, dropoff, tin) items

-- `validateCreate` lets exactly the requests through that keep the rules: an id for the store, a
-- positive district, one to a hundred items with ids and positive quantities and no product twice,
-- one of the two buyer types and fulfilments, for a delivery a valid point with an address that is
-- not blank, and for a legal entity a TIN of nine bytes, all digits.
pub validate_create_iff :
    (t : Texts) (valid_point : Point → Bool) (i : CreateInput)
    → (validate_create t valid_point i ≡ true) ↔ IsRequest t valid_point i
validate_create_iff t valid_point i = (
  (λ h. IsRequest-of_tests t valid_point i (sym (validate_create-all_tests t valid_point i) ∙ h)),
  (λ r. validate_create-all_tests t valid_point i ∙ tests-of_IsRequest t valid_point i r),
)
