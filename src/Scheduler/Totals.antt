-- ===== src/Scheduler/Totals.antt =====
-- The ledger's maps: what `m[key] += n` does to a day's total and to what is booked from a day on.
use woms.Base.{ℕ, ◌+◌, ◌≤◌, ◌≡◌, [], ◌∷◌, arith, ◌==◌, leb, if◌then◌else◌}
use woms.Scheduler.Types.{OrderInput, PlanResult, Request}
use woms.Scheduler.Ledger.{DayTotals, CapacityLedger, total_on, add_on, used_on}
use woms.Scheduler.Plan.{booked_from, ledger_from, record_manual_force_conflict}

pub total_on-add_on :
    (j k n : ℕ) (m : DayTotals)
    → total_on j (add_on k n m) ≡ total_on j m + (if k == j then n else 0)
unfolding total_on add_on
total_on-add_on j k n [] = ground arith
total_on-add_on j k n ((i, v) ∷ m) = ground (arith, total_on-add_on j k n m)

pub booked_from-add_on :
    (j k n : ℕ) (m : DayTotals)
    → booked_from j (add_on k n m) ≡ booked_from j m + (if leb j k then n else 0)
unfolding booked_from add_on
booked_from-add_on j k n [] = ground arith
booked_from-add_on j k n ((i, v) ∷ m) = ground (arith, booked_from-add_on j k n m)

pub booked_from-next-le : (k : ℕ) (m : DayTotals) → booked_from (k + 1) m ≤ booked_from k m
unfolding booked_from
booked_from-next-le k [] = omega arith
booked_from-next-le k ((i, v) ∷ m) = ground (arith, booked_from-next-le k m)

pub total_on-add-booked_from-le :
    (k : ℕ) (m : DayTotals) → total_on k m + booked_from (k + 1) m ≤ booked_from k m
unfolding booked_from total_on
total_on-add-booked_from-le k [] = omega arith
total_on-add-booked_from-le k ((i, v) ∷ m) =
    ground (arith, total_on-add-booked_from-le k m, booked_from-next-le k m)

pub ledger_from-next-le : (l : CapacityLedger) (k : ℕ) → ledger_from l (k + 1) ≤ ledger_from l k
unfolding ledger_from
ledger_from-next-le l k = omega (
  arith,
  booked_from-next-le k l.high_used,
  booked_from-next-le k l.new_used,
  booked_from-next-le k l.low_used,
)

pub used_on-add-ledger_from-le :
    (req : Request) (l : CapacityLedger) (k : ℕ)
    → used_on req l k + ledger_from l (k + 1) ≤ ledger_from l k
unfolding ledger_from used_on
used_on-add-ledger_from-le req l k = ground (
  arith,
  total_on-add-booked_from-le k l.high_used,
  total_on-add-booked_from-le k l.new_used,
  total_on-add-booked_from-le k l.low_used,
)

-- The report of a conflict leaves the totals and the allocations alone.
pub record IsReport (l : CapacityLedger) (r : PlanResult) (out : CapacityLedger × PlanResult)
    : Type 0 where
  pub high : out.0.high_used ≡ l.high_used
  pub low : out.0.low_used ≡ l.low_used
  pub new : out.0.new_used ≡ l.new_used
  pub low_orders : out.0.low_by_date ≡ l.low_by_date
  pub locked_orders : out.0.locked_by_date ≡ l.locked_by_date
  pub allocations : out.1.allocations ≡ r.allocations
  pub finish : out.1.finish_date ≡ r.finish_date

pub record_manual_force_conflict-IsReport :
    (req : Request) (l : CapacityLedger) (order : OrderInput) (r : PlanResult) (day : ℕ)
    → IsReport l r (record_manual_force_conflict req l order r day)
unfolding record_manual_force_conflict
record_manual_force_conflict-IsReport req l order r day = ground arith
