-- ===== src/Orders/Status/Stock.antt =====
-- What the table of internal/modules/orders/status.go says of the stock that an order holds.
use binno_pta_2026_evaluatio.Prelude.{
  ◌≡◌, ◌≢◌, ◌⊎◌, Bool, true, false, not, ◌&&◌, ◌||◌, Option, none, some, arith,
}
use binno_pta_2026_evaluatio.Orders.Status.{
  Status, created, buyer_decision_pending, accepted, awaiting_payment, paid, payment_review,
  preparing, ready, delivered, picked_up_by_buyer, Trigger, transition_for, permits,
}
use binno_pta_2026_evaluatio.Orders.Status.Paths.{next_status}

-- The statuses in which an order that was just placed still holds its stock.
abbrev pub holds_stock : Status → Bool
holds_stock created = true
holds_stock accepted = true
holds_stock awaiting_payment = true
holds_stock payment_review = true
holds_stock paid = true
holds_stock preparing = true
holds_stock ready = true
holds_stock delivered = true
holds_stock picked_up_by_buyer = true
holds_stock _ = false

abbrev touches : Option Trigger → Bool
touches none = false
touches (some t) = elim (transition_for t) [
  | none ↦ false
  | some u ↦ u.releases_stock || u.consumes_stock
]

abbrev follow_on_of : Trigger → Option Trigger
follow_on_of t = elim (transition_for t) [ none ↦ none | some u ↦ u.follow_on ]

-- Whether a trigger, with its follow-on, takes the order's quantities off the reservation.
unfoldable pub ends_hold : Trigger → Bool
unfolding transition_for
ends_hold t = touches (some t) || touches (follow_on_of t)

-- Outside `buyer_decision_pending` a trigger takes the quantities off the reservation exactly when
-- it moves the order from a status that holds stock to one that does not, and no trigger leads
-- back to a status that holds stock.
pub ends_hold-exact :
    (trigger : Trigger) (s : Status) {s' : Status}
    → s ≢ buyer_decision_pending
    → next_status trigger s ≡ some s'
    → (holds_stock s ≡ true) × (ends_hold trigger ≡ not (holds_stock s'))
      ⊎ (holds_stock s ≡ false) × (ends_hold trigger ≡ false) × (holds_stock s' ≡ false)
unfolding next_status ends_hold permits
ends_hold-exact trigger s h e = ground arith

abbrev releases : Option Trigger → Bool
releases none = false
releases (some t) = elim (transition_for t) [ none ↦ false | some u ↦ u.releases_stock ]

abbrev consumes : Option Trigger → Bool
consumes none = false
consumes (some t) = elim (transition_for t) [ none ↦ false | some u ↦ u.consumes_stock ]

-- Whether a trigger, with its follow-on, gives the order's quantities back and uses none up.
unfoldable pub gives_back : Trigger → Bool
unfolding transition_for
gives_back t =
    (releases (some t) || releases (follow_on_of t))
    && not (consumes (some t) || consumes (follow_on_of t))

-- Whichever trigger brings an order to `buyer_decision_pending` gives its stock back, and whichever
-- trigger moves it on from there gives the stock back once more; neither uses any up.
pub declined-released_twice :
    (first second : Trigger) (before after : Status)
    → next_status first before ≡ some buyer_decision_pending
    → next_status second buyer_decision_pending ≡ some after
    → (gives_back first ≡ true) × (gives_back second ≡ true)
unfolding next_status gives_back permits
declined-released_twice first second before after brought moved = (ground arith, ground arith)
