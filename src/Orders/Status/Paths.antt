-- ===== src/Orders/Status/Paths.antt =====
-- Where an order can go: the status that `runTransition` of
-- internal/modules/orders/repository.go leaves behind, read off the table of status.go.
use binno_pta_2026_evaluatio.Prelude.{
  ◌≡◌, refl, ◌⊎◌, inl, inr, true, Option, none, some, arith, if◌then◌else◌, get_or, Option-cases,
}
use binno_pta_2026_evaluatio.Orders.Status.{
  Status, created, declined, expired, buyer_decision_pending, accepted, awaiting_payment, paid,
  payment_review, preparing, ready, delivered, picked_up_by_buyer, closed, cancelled_by_buyer_sla,
  cancelled_by_operator, refunded, Trigger, buyer_cancel, confirm_delivery, mark_ready,
  confirm_payment, confirm_refund, expire, Transition, transition_for, permits, all_statuses, rank,
  status_eq,
}

-- The follow-on, from the status that the first transition reached.
abbrev follow_status : Option Trigger → Status → Option Status
follow_status none s = some s
follow_status (some next) s = elim (transition_for next) [
  | none ↦ none
  | some t ↦ if permits t s then some t.to else none
]

-- The status after a trigger, if the table allows it.
unfoldable pub next_status : Trigger → Status → Option Status
next_status trigger s = elim (transition_for trigger) [
  | none ↦ none
  | some t ↦ if permits t s then follow_status t.follow_on t.to else none
]

pub status_of_rank : (s : Status) → get_or all_statuses (rank s) created ≡ s
status_of_rank s = ground arith

pub eq_of_status_eq : (a b : Status) → status_eq a b ≡ true → a ≡ b
unfolding status_eq
eq_of_status_eq a b h = ground (arith, status_of_rank a, status_of_rank b)

pub status_eq_self : (a : Status) → status_eq a a ≡ true
unfolding status_eq
status_eq_self a = ground arith

-- What `runTransition` checks of a follow-on.
abbrev pub IsFollowOn : Transition → Trigger → Type 0
IsFollowOn t next =
    (u : Transition) × (transition_for next ≡ some u)
    × (u.follow_on ≡ none)
    × (permits u t.to ≡ true)

-- Every follow-on that the table names is in the table, names no further one, and departs from the
-- status that its first transition reaches.
pub follow_on-IsFollowOn :
    (trigger : Trigger) {t : Transition} {next : Trigger}
    → transition_for trigger ≡ some t
    → t.follow_on ≡ some next
    → IsFollowOn t next
unfolding transition_for permits
follow_on-IsFollowOn trigger {next = next} h e = elim (Option-cases (transition_for next)) [
  | inl missing ↦ absurd (ground arith)
  | inr (u, found) ↦ (u, found, ground arith, ground arith)
]

-- The statuses that a committed order never has: it passes through three of them inside a
-- transaction, and nothing leads to the fourth.
abbrev pub IsPassing : Status → Type 0
IsPassing s = (s ≡ declined) ⊎ ((s ≡ accepted) ⊎ ((s ≡ delivered) ⊎ (s ≡ picked_up_by_buyer)))

-- No trigger, with its follow-on, leaves an order in one of these statuses.
pub next_status-resting :
    (trigger : Trigger) (s : Status) {s' : Status}
    → next_status trigger s ≡ some s'
    → ¬ IsPassing s'
unfolding next_status transition_for permits
next_status-resting trigger s h p = ground arith

abbrev pub IsTerminal : Status → Type 0
IsTerminal s =
    (s ≡ expired)
    ⊎ ((s ≡ closed)
        ⊎ ((s ≡ cancelled_by_buyer_sla) ⊎ ((s ≡ cancelled_by_operator) ⊎ (s ≡ refunded))))

-- A terminal status permits no trigger.
pub IsTerminal-stays :
    (trigger : Trigger) (s : Status) → IsTerminal s → next_status trigger s ≡ none
unfolding next_status transition_for permits
IsTerminal-stays trigger s h = ground arith

-- A run of triggers from one status to another.
pub data Leads : Status → Status → Type 0 where
  here : {s : Status} → Leads s s
  step :
      {s t u : Status} (trigger : Trigger) → next_status trigger s ≡ some t → Leads t u → Leads s u

-- From every status that a committed order can have, some run of triggers ends the order's life.
pub resting-ends : (s : Status) → ¬ IsPassing s → (u : Status) × IsTerminal u × Leads s u
unfolding next_status transition_for permits
resting-ends created h = (expired, inl refl, step expire refl here)
resting-ends declined h = absurd (h (inl refl))
resting-ends expired h = (expired, inl refl, here)
resting-ends buyer_decision_pending h =
    (cancelled_by_buyer_sla, inr (inr (inl refl)), step buyer_cancel refl here)
resting-ends accepted h = absurd (h (inr (inl refl)))
resting-ends awaiting_payment h =
    (cancelled_by_buyer_sla, inr (inr (inl refl)), step buyer_cancel refl here)
resting-ends paid h = (closed, inr (inl refl), step confirm_delivery refl here)
resting-ends payment_review h =
    (closed, inr (inl refl), step confirm_payment refl (step confirm_delivery refl here))
resting-ends preparing h =
    (closed, inr (inl refl), step mark_ready refl (step confirm_delivery refl here))
resting-ends ready h = (closed, inr (inl refl), step confirm_delivery refl here)
resting-ends delivered h = absurd (h (inr (inr (inl refl))))
resting-ends picked_up_by_buyer h = absurd (h (inr (inr (inr refl))))
resting-ends closed h = (closed, inr (inl refl), here)
resting-ends cancelled_by_buyer_sla h = (cancelled_by_buyer_sla, inr (inr (inl refl)), here)
resting-ends cancelled_by_operator h = (cancelled_by_operator, inr (inr (inr (inl refl))), here)
resting-ends Status.refund_requested h =
    (refunded, inr (inr (inr (inr refl))), step confirm_refund refl here)
resting-ends refunded h = (refunded, inr (inr (inr (inr refl))), here)
resting-ends Status.refund_overdue h =
    (refunded, inr (inr (inr (inr refl))), step confirm_refund refl here)
