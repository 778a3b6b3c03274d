-- ===== src/Scheduler/Rule.antt =====
-- A proof rule for the loop of `planOrder`: the fuel is enough, and an invariant carries over.
use Prim.Native.Nat.{min}
use woms.Base.{
  ℕ, zero, suc, ◌+◌, ◌*◌, ◌<◌, ◌≡◌, refl, sym, inl, inr, Bool, true, false, ◌&&◌, not, List, Option,
  none, some, String, arith, ◌==◌, if◌then◌else◌, Bool-cases, Option-cases, suc-==-zero,
}
use woms.Clock.{Time, add_days, after, before, date_key}
use woms.Scheduler.Types.{OrderInput, Request}
use woms.Scheduler.Ledger.{available_capacity}
use woms.Scheduler.Plan.{
  LoopState, Turn, finished, again, stuck, allocate, conclude, book, place, late_result,
  record_late_capacity_conflict, plan_turn, plan_loop, ledger_from, estimate_finish_date,
  affected_orders_between,
}
use woms.Scheduler.Totals.{booked_from-add_on, record_manual_force_conflict-IsReport}
use woms.Scheduler.Termination.{
  ledger_from-lt_of_full, estimate_finish_date-ne-none, affected_orders_between-ne-none,
}

abbrev pub turn_bound : LoopState → ℕ
turn_bound s = ledger_from s.ledger (date_key s.day) + 2 * s.remaining

allocate-turn_bound :
    (req : Request) (order : OrderInput) (available : ℕ) (s : LoopState)
    → 0 < s.remaining
    → 0 < available
    → turn_bound (allocate req order available s) < turn_bound s
unfolding allocate ledger_from
allocate-turn_bound req order available s more room =
    let qty : ℕ = min s.remaining available in
    ground (
      arith,
      record_manual_force_conflict-IsReport req (book s.day qty s.ledger) order
          (place req order s.day qty s.result) s.day,
      booked_from-add_on (date_key s.day) (date_key s.day) qty s.ledger.new_used,
    )

record_late_capacity_conflict_lem :
    (req : Request) (order : OrderInput) (start due : Time) (s : LoopState)
    → 0 < req.capacity_per_day
    → (finish : Time) × (ids : List String) × (record_late_capacity_conflict req order start due s
        ≡ some (late_result order s.result finish ids))
unfolding record_late_capacity_conflict
record_late_capacity_conflict_lem req order start due s room =
    elim (Option-cases (estimate_finish_date req s.day s.remaining s.ledger)) [
      | inl e ↦ absurd (estimate_finish_date-ne-none req s.day s.remaining s.ledger room e)
      | inr (finish, e) ↦
          elim (Option-cases (
            affected_orders_between start (if before finish due then due else finish)
              s.ledger.low_by_date)) [
                | inl e' ↦ absurd (affected_orders_between-ne-none start _ s.ledger.low_by_date e')
                | inr (ids, e') ↦ (finish, ids, rw (e, record_late_capacity_conflict, e'))
              ]
    ]

-- What to show of an invariant `P` and a postcondition `Q`.
pub record Rule (req : Request) (order : OrderInput) (due : Time) (P Q : LoopState → Type 0)
    : Type 0 where
  pub stop : (s : LoopState) → P s → s.remaining ≡ 0 → Q s
  pub late :
      (s : LoopState) (finish : Time) (ids : List String)
      → P s
      → 0 < s.remaining
      → after s.day due ≡ true
      → req.allow_late_completion ≡ false
      → Q (record s { result = late_result order s.result finish ids })
  pub skip :
      (s : LoopState)
      → P s
      → available_capacity req s.ledger s.day ≡ 0
      → P (record s { day = add_days s.day 1 })
  pub fill :
      (s : LoopState) (available : ℕ)
      → P s
      → available ≡ available_capacity req s.ledger s.day
      → 0 < s.remaining
      → 0 < available
      → (after s.day due && not req.allow_late_completion) ≡ false
      → P (allocate req order available s)

and_true : (a b : Bool) → (a && b) ≡ true → (a ≡ true) × (b ≡ true)
and_true a b h = ground arith

not-true : (a : Bool) → not a ≡ true → a ≡ false
not-true a h = ground arith

module _ (req : Request) (order : OrderInput) (start due : Time) {P Q : LoopState → Type 0}
    (room : 0 < req.capacity_per_day) (rule : Rule req order due P Q) where
  abbrev Meets : ℕ → Turn → Type 0
  Meets n (finished t) = Q t
  Meets n (again t) = P t × (turn_bound t < n)
  Meets n stuck = ⊥

  late-Meets :
      (s : LoopState)
      → P s
      → 0 < s.remaining
      → (after s.day due && not req.allow_late_completion) ≡ true
      → Meets (turn_bound s) (conclude s (record_late_capacity_conflict req order start due s))
  late-Meets s p more past =
      let (finish, ids, e) = record_late_capacity_conflict_lem req order start due s room in
      rw e (rule.late s finish ids p more (and_true _ _ past).0 (not-true _ (and_true _ _ past).1))

  open-Meets :
      (s : LoopState) (available : ℕ)
      → P s
      → available ≡ available_capacity req s.ledger s.day
      → 0 < s.remaining
      → (after s.day due && not req.allow_late_completion) ≡ false
      → Meets (turn_bound s) (
          if available == 0
          then again (record s { day = add_days s.day 1 })
          else again (allocate req order available s))
  open-Meets s zero p e more on_time =
      (rule.skip s p (sym e), omega (arith, ledger_from-lt_of_full req s.ledger s.day room (sym e)))
  open-Meets s (suc n) p e more on_time = rw (suc-==-zero n) (
    rule.fill s (suc n) p e more (omega arith) on_time,
    allocate-turn_bound req order (suc n) s more (omega arith),
  )

  plan_turn-Meets : (s : LoopState) → P s → Meets (turn_bound s) (plan_turn req order start due s)
  unfolding plan_turn
  plan_turn-Meets s p = elim (Bool-cases (s.remaining == 0)) [
    | inl done ↦ rw done (rule.stop s p (ground arith))
    | inr more ↦ rw more (elim (Bool-cases (after s.day due && not req.allow_late_completion)) [
      | inl past ↦ rw past (late-Meets s p (ground arith) past)
      | inr on_time ↦
          rw on_time
            (open-Meets s (available_capacity req s.ledger s.day) p refl (ground arith) on_time)
    ])
  ]

  Ends : Option LoopState → Type 0
  Ends o = (t : LoopState) × (o ≡ some t) × Q t

  follow :
      (fuel : ℕ) (s : LoopState) (turn : Turn)
      → Meets (turn_bound s) turn
      → turn_bound s < suc fuel
      → ((t : LoopState) → turn_bound t < fuel → P t → Ends (plan_loop req order start due fuel t))
      → Ends (elim turn [
        | finished t ↦ some t
        | again t ↦ plan_loop req order start due fuel t
        | stuck ↦ none
      ])
  unfolding Ends
  follow fuel s (finished t) q h rest = (t, refl, q)
  follow fuel s (again t) (p, less) h rest = rest t (omega arith) p
  follow fuel s stuck q h rest = absurd q

  pub plan_loop_rule :
      (fuel : ℕ) (s : LoopState)
      → turn_bound s < fuel
      → P s
      → (t : LoopState) × (plan_loop req order start due fuel s ≡ some t) × Q t
  unfolding plan_loop Ends
  plan_loop_rule zero s h p = elim h [ ]
  plan_loop_rule (suc fuel) s h p =
      follow fuel s (plan_turn req order start due s) (plan_turn-Meets s p) h (plan_loop_rule fuel)
