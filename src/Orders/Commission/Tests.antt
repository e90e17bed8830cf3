-- ===== src/Orders/Commission/Tests.antt =====
-- Tests and witnesses for the commission of an order.
use binno_pta_2026_evaluatio.Prelude.{◌+◌, ◌≤◌, ◌≡◌, refl, some, List, [], ◌∷◌, arith, All}
use binno_pta_2026_evaluatio.Prelude.Int.{pos}
use binno_pta_2026_evaluatio.Db.{OrderItem}
use binno_pta_2026_evaluatio.Db.Sample.{sample_item}
use binno_pta_2026_evaluatio.Orders.Commission.{accrue_lines, effective_rate_bps}
use binno_pta_2026_evaluatio.Orders.Commission.Bounds.{IsPriced, goods, charges, accrue_lines_lem}

-- A commission above zero whose rate is zero.
rate_of_little : effective_rate_bps (pos 1000000) (pos 1) ≡ pos 0
unfolding effective_rate_bps
rate_of_little = refl

abbrev two_items : List OrderItem
two_items = sample_item ∷ sample_item ∷ []

two_items-IsPriced : All IsPriced two_items
two_items-IsPriced =
    ((omega arith, omega arith, omega arith), ((omega arith, omega arith, omega arith), tt))

accrue_lines_lem_example :
    (accrue_lines (pos 0) two_items ≡ some (pos (0 + charges two_items)))
    × (charges two_items ≤ goods two_items)
accrue_lines_lem_example = accrue_lines_lem 0 two_items two_items-IsPriced (omega arith)
