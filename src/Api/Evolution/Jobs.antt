-- ===== src/Api/Evolution/Jobs.antt =====
-- The execution of a schedule job of internal/api/server.go, on the map of orders.
use woms.Base.{
  ◌≡◌, sym, subst, ◌∙◌, inl, inr, Bool, not, ◌||◌, ◌&&◌, String, ◌==◌, arith, Option-cases,
  Bool-cases, is_empty, contains,
}
use woms.Base.Maps.{lookup}
use woms.Base.Results.{ok, Result-cases}
use woms.Domain.{ScheduleJob, JobStatus, job_status_eq}
use woms.Scheduler.Types.{PlanResult}
use woms.Api.Requests.{ScheduleRequest}
use woms.Api.State.{Env, MemoryStore, bump_line_revision_locked}
use woms.Api.Planning.{plan_locked, can_persist_conflicts}
use woms.Api.Splits.{persist_allocations_locked}
use woms.Api.Jobs.{
  put_job, completed_job, started_job, lock_line, fail_schedule_job_locked, run_schedule_job_locked,
  complete_schedule_job_locked, preview_claims_locked, execute_locked, execute_schedule_job,
  revision_of,
}
use woms.Api.Lifecycle.{IsKeyed, Evolves, Evolves-refl}
use woms.Api.Evolution.Frame.{bump-orders}
use woms.Api.Evolution.Splits.{persist_allocations_locked-Evolves}

complete-Evolves :
    (env : Env) (job : ScheduleJob) (req : ScheduleRequest) (result : PlanResult)
    (s t : MemoryStore) (final : ScheduleJob)
    → IsKeyed s.orders
    → complete_schedule_job_locked env job req result s ≡ ok (t, final)
    → Evolves s.orders t.orders
unfolding complete_schedule_job_locked
complete-Evolves env job req result s t final keyed h =
    elim (Result-cases
      (persist_allocations_locked env result.allocations (put_job (completed_job env job) s))) [
        | inr (e, stuck) ↦ ground (arith, stuck, h)
        | inl (u, persisted) ↦
            let bumped : MemoryStore = bump_line_revision_locked job.line_id u in
            let same : bumped.orders ≡ t.orders = ground (arith, persisted, h) in
            subst (λ m. Evolves s.orders m) (sym (bump-orders job.line_id u) ∙ same)
              (persist_allocations_locked-Evolves env result.allocations _ u keyed persisted)
      ]

execute_locked-Evolves :
    (env : Env) (job : ScheduleJob) (req : ScheduleRequest) (s t : MemoryStore)
    (final : ScheduleJob)
    → IsKeyed s.orders
    → execute_locked env job req s ≡ ok (t, final)
    → Evolves s.orders t.orders
unfolding execute_locked fail_schedule_job_locked
execute_locked-Evolves env job req s t final keyed h =
    elim (Bool-cases (job_status_eq job.status JobStatus.cancelled)) [
      | inl cancelled ↦ unchanged (ground (arith, cancelled, h))
      | inr running ↦ elim (Bool-cases (revision_of job.line_id s == job.line_revision)) [
        | inr stale ↦ unchanged (ground (arith, running, stale, h))
        | inl current ↦
            elim (Result-cases
              (plan_locked env req (preview_claims_locked job.preview_id job.line_id s) s)) [
                | inr (e, refused) ↦ unchanged (ground (arith, running, current, refused, h))
                | inl (result, planned) ↦ elim (Bool-cases (blocked result)) [
                  | inl conflicts ↦
                      unchanged (ground (arith, running, current, planned, conflicts, h))
                  | inr free ↦
                      complete-Evolves env job req result s t final keyed
                        (ground (arith, running, current, planned, free, h))
                ]
              ]
      ]
    ]
  where
    blocked : PlanResult → Bool
    blocked result =
        not (is_empty result.conflicts) && not (can_persist_conflicts req result.conflicts)

    unchanged : s.orders ≡ t.orders → Evolves s.orders t.orders
    unchanged same = subst (λ m. Evolves s.orders m) same (Evolves-refl s.orders keyed)

pub execute_schedule_job-Evolves :
    (env : Env) (id : String) (s t : MemoryStore) (final : ScheduleJob)
    → IsKeyed s.orders
    → execute_schedule_job env id s ≡ ok (t, final)
    → Evolves s.orders t.orders
unfolding execute_schedule_job fail_schedule_job_locked run_schedule_job_locked
execute_schedule_job-Evolves env id s t final keyed h = elim (Option-cases (lookup id s.jobs)) [
  | inl missing ↦ unchanged (ground (arith, missing, h))
  | inr (job, found) ↦ elim (Bool-cases (ended job)) [
    | inl over ↦ unchanged (ground (arith, found, over, h))
    | inr going ↦ elim (Option-cases (lookup id s.job_requests)) [
      | inl missing ↦ unchanged (ground (arith, found, going, missing, h))
      | inr (req, asked) ↦ elim (Bool-cases (contains s.line_locks job.line_id)) [
        | inl busy ↦ unchanged (ground (arith, found, going, asked, busy, h))
        | inr idle ↦
            elim (Result-cases (
              execute_locked env (started_job env job) req
                (put_job (started_job env job) (lock_line job.line_id s)))) [
                  | inr (e, stuck) ↦ ground (arith, found, going, asked, idle, stuck, h)
                  | inl ((u, last), ran) ↦
                      let same : u.orders ≡ t.orders =
                        ground (arith, found, going, asked, idle, ran, h) in
                      subst (λ m. Evolves s.orders m) same
                        (execute_locked-Evolves env (started_job env job) req
                          (put_job (started_job env job) (lock_line job.line_id s)) u last keyed
                          ran)
                ]
      ]
    ]
  ]
]
  where
    ended : ScheduleJob → Bool
    ended job =
        job_status_eq job.status JobStatus.cancelled
        || job_status_eq job.status JobStatus.completed
        || job_status_eq job.status JobStatus.failed

    unchanged : s.orders ≡ t.orders → Evolves s.orders t.orders
    unchanged same = subst (λ m. Evolves s.orders m) same (Evolves-refl s.orders keyed)
