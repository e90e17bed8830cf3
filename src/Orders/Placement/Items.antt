-- ===== src/Orders/Placement/Items.antt =====
-- The loop of `validateCreate` (internal/modules/orders/service.go) over the items.
use text.Mathlib.TextEquality.{eq_iff}
use binno_pta_2026_evaluatio.Prelude.{
  ◌≡◌, ◌≢◌, refl, sym, true, false, ◌↔◌, inl, inr, List, [], ◌∷◌, String, str_eq, arith, All,
  All-map, All-zip, &&-eq-true, Bool-cases,
}
use binno_pta_2026_evaluatio.Money.{is_positive_decimal}
use binno_pta_2026_evaluatio.Catalog.LinePort.{codes}
use binno_pta_2026_evaluatio.Orders.Service.{Texts}
use binno_pta_2026_evaluatio.Orders.Placement.{ItemInput, is_seen, valid_items}

-- A product id and a positive quantity.
abbrev pub IsItem : Texts → ItemInput → Type 0
IsItem t i = (t.is_uuid i.product_id ≡ true) × (is_positive_decimal (codes i.qty) ≡ true)

-- No product is asked for twice.
abbrev pub IsDistinct : List ItemInput → Type 0
IsDistinct [] = Unit
IsDistinct (i ∷ is) = All (λ j. j.product_id ≢ i.product_id) is × IsDistinct is

-- No text of the list is the id of an item.
abbrev Unseen : List String → List ItemInput → Type 0
Unseen seen = All (λ i. is_seen i.product_id seen ≡ false)

is_seen-cons :
    (id s : String) (seen : List String)
    → is_seen id (s ∷ seen) ≡ false
    → (id ≢ s) × (is_seen id seen ≡ false)
is_seen-cons id s seen h = (λ e. ground (arith, eq_iff s id), ground (arith, eq_iff s id))

valid_items_sound :
    (t : Texts) (seen : List String) (is : List ItemInput)
    → valid_items t seen is ≡ true
    → All (IsItem t) is × (IsDistinct is × Unseen seen is)
unfolding valid_items
valid_items_sound t seen [] h = (tt, (tt, tt))
valid_items_sound t seen (i ∷ is) h =
    let (now, later) = &&-eq-true _ (valid_items t (i.product_id ∷ seen) is) h in
    let (items, (distinct, unseen)) = valid_items_sound t (i.product_id ∷ seen) is later in
    let id_fine : t.is_uuid i.product_id ≡ true = ground arith in
    let qty_fine : is_positive_decimal (codes i.qty) ≡ true = ground arith in
    let new : is_seen i.product_id seen ≡ false = ground arith in
    (
      ((id_fine, qty_fine), items),
      (
        (All-map (λ j k. (is_seen-cons j.product_id i.product_id seen k).0) is unseen, distinct),
        (new, All-map (λ j k. (is_seen-cons j.product_id i.product_id seen k).1) is unseen),
      ),
    )

is_seen-add :
    (id s : String) (seen : List String)
    → id ≢ s
    → is_seen id seen ≡ false
    → is_seen id (s ∷ seen) ≡ false
is_seen-add id s seen h k = elim (Bool-cases (str_eq s id)) [
  | inl same ↦ absurd (h (sym ((eq_iff s id).0 same)))
  | inr other ↦ rw other k
]

valid_items_complete :
    (t : Texts) (seen : List String) (is : List ItemInput)
    → All (IsItem t) is
    → IsDistinct is
    → Unseen seen is
    → valid_items t seen is ≡ true
unfolding valid_items
valid_items_complete t seen [] h d u = refl
valid_items_complete t seen (i ∷ is) ((a, b), h) (d, ds) (u, us) =
    rw (a, b, u)
      (valid_items_complete t (i.product_id ∷ seen) is h ds
        (All-zip (λ j apart k. is_seen-add j.product_id i.product_id seen apart k) is d us))

pub items_iff :
    (t : Texts) (is : List ItemInput)
    → (valid_items t [] is ≡ true) ↔ (All (IsItem t) is × IsDistinct is)
items_iff t is = (
  (λ h. let (a, (b, _)) = valid_items_sound t [] is h in (a, b)),
  (λ h. valid_items_complete t [] is h.0 h.1 (All-map (λ i _. refl) is h.0)),
)
