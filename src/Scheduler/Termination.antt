-- ===== src/Scheduler/Termination.antt =====
-- The fuel of the planner's loops: lemmas on `search_bound`.
use Prim.Native.Nat.{min}
use woms.Base.{
  ℕ, zero, suc, ◌∙◌, ap, ◌+◌, ◌-◌, ◌*◌, ◌≤◌, ◌<◌, ◌≡◌, refl, ◌≢◌, inl, inr, List, [], none, String,
  arith, ◌==◌, if◌then◌else◌, Bool-cases,
}
use woms.Clock.{
  Time, truncate_date, add_days, after, date_key, date_key-add_days, truncate_date-add_days,
  date_key-le_of_le, date_key-truncate_date, truncate_date_idem,
}
use woms.Scheduler.Types.{Request}
use woms.Scheduler.Ledger.{CapacityLedger, DayOrders, available_capacity}
use woms.Scheduler.Plan.{
  ledger_from, search_bound, finish_loop, estimate_finish_date, affected_loop,
  affected_orders_between,
}
use woms.Scheduler.Totals.{ledger_from-next-le, used_on-add-ledger_from-le}

-- A day with no capacity left has something booked.
pub ledger_from-lt_of_full :
    (req : Request) (l : CapacityLedger) (day : Time)
    → 0 < req.capacity_per_day
    → available_capacity req l day ≡ 0
    → ledger_from l (date_key (add_days day 1)) < ledger_from l (date_key day)
unfolding available_capacity
ledger_from-lt_of_full req l day cap full =
    rw (date_key-add_days day 1) (omega (arith, used_on-add-ledger_from-le req l (date_key day)))

pub ledger_from-day-le :
    (l : CapacityLedger) (day : Time)
    → ledger_from l (date_key (add_days day 1)) ≤ ledger_from l (date_key day)
ledger_from-day-le l day = rw (date_key-add_days day 1) (ledger_from-next-le l (date_key day))

-- One round of `estimateFinishDate` brings its end nearer.
finish_round :
    (req : Request) (l : CapacityLedger) (day : Time) (remaining left : ℕ)
    → 0 < req.capacity_per_day
    → 0 < remaining
    → left ≡ remaining - min remaining (available_capacity req l day)
    → ledger_from l (date_key (if left == 0 then day else add_days day 1)) + 2 * left
      < ledger_from l (date_key day) + 2 * remaining
finish_round req l day remaining left room more e =
    ground (arith, ledger_from-lt_of_full req l day room, ledger_from-day-le l day)

finish_loop-ne-none :
    (req : Request) (l : CapacityLedger) (fuel : ℕ) (day : Time) (remaining : ℕ)
    → 0 < req.capacity_per_day
    → ledger_from l (date_key day) + 2 * remaining < fuel
    → finish_loop req l fuel day remaining ≢ none
unfolding finish_loop
finish_loop-ne-none req l zero day remaining room h = elim h [ ]
finish_loop-ne-none req l (suc fuel) day remaining room h = elim (Bool-cases (remaining == 0)) [
  | inl done ↦ rw done (λ e. cc)
  | inr more ↦ rw more (
      finish_loop-ne-none req l fuel _ _ room
        (omega (arith, finish_round req l day remaining _ room (ground arith) refl)))
]

pub estimate_finish_date-ne-none :
    (req : Request) (day : Time) (remaining : ℕ) (l : CapacityLedger)
    → 0 < req.capacity_per_day
    → estimate_finish_date req day remaining l ≢ none
unfolding estimate_finish_date search_bound
estimate_finish_date-ne-none req day remaining l room =
    finish_loop-ne-none req l (search_bound l (truncate_date day) remaining) (truncate_date day)
      remaining room (omega arith)

affected_loop-ne-none :
    (fuel : ℕ) (day due : Time) (by_date : DayOrders) (affected : List String)
    → truncate_date day ≡ day
    → suc (date_key due) - date_key day < fuel
    → affected_loop fuel day due by_date affected ≢ none
unfolding affected_loop
affected_loop-ne-none zero day due by_date affected midnight h = elim h [ ]
affected_loop-ne-none (suc fuel) day due by_date affected midnight h =
    elim (Bool-cases (after day due)) [
      | inl past ↦ rw past (λ e. cc)
      | inr on_time ↦ rw on_time (
          affected_loop-ne-none fuel (add_days day 1) due by_date _
            (truncate_date-add_days day 1 ∙ ap (λ t. add_days t 1) midnight)
            (ground (arith, date_key-add_days day 1, date_key-le_of_le day due)))
    ]

pub affected_orders_between-ne-none :
    (start due : Time) (by_date : DayOrders) → affected_orders_between start due by_date ≢ none
unfolding affected_orders_between
affected_orders_between-ne-none start due by_date =
    affected_loop-ne-none (suc (suc (date_key due) - date_key start)) (truncate_date start) due
      by_date [] (truncate_date_idem start) (omega (arith, date_key-truncate_date start))
