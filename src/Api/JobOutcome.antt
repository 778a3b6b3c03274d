-- ===== src/Api/JobOutcome.antt =====
-- How the execution of a schedule job ends in internal/api/server.go.
use woms.Base.{
  ◌≡◌, refl, ap, ◌∙◌, ◌⊎◌, inl, inr, true, false, not, ◌||◌, ◌&&◌, none, some, String, str_eq,
  eq_iff, List, [], ◌∷◌, ◌==◌, keep, arith, Bool-cases, is_empty, contains, ==_iff,
}
use woms.Base.Maps.{lookup, delete, lookup-delete}
use woms.Base.Results.{Result, ok, Result-cases}
use woms.Domain.{ScheduleJob, JobStatus, job_status_eq}
use woms.Scheduler.Types.{PlanResult}
use woms.Api.Requests.{ScheduleRequest}
use woms.Api.State.{Env, MemoryStore, bump_line_revision_locked}
use woms.Api.Planning.{plan_locked, can_persist_conflicts}
use woms.Api.Jobs.{
  put_job, completed_job, started_job, lock_line, unlock_line, fail_schedule_job_locked,
  run_schedule_job_locked, complete_schedule_job_locked, preview_claims_locked, execute_locked,
  execute_schedule_job, revision_of,
}
use woms.Api.Persisting.{persist-total, persist-untouched, bump-untouched}

-- The job failed, and the schedule is what it was.
pub record IsFailure (s t : MemoryStore) (final : ScheduleJob) : Type 0 where
  pub status : final.status ≡ JobStatus.failed
  pub orders : t.orders ≡ s.orders
  pub allocations : t.allocations ≡ s.allocations
  pub lines : t.lines ≡ s.lines
  pub previews : t.previews ≡ s.previews

-- The job was completed: its line had the revision of its preview, its plan had no conflict that may
-- not be persisted, and its preview and its request are used up.
pub record IsCompletion (env : Env) (job : ScheduleJob) (req : ScheduleRequest) (s t : MemoryStore)
    (final : ScheduleJob) : Type 0 where
  pub status : final.status ≡ JobStatus.completed
  pub revision : revision_of job.line_id s ≡ job.line_revision
  pub result : PlanResult
  pub planned :
      plan_locked env req (preview_claims_locked job.preview_id job.line_id s) s ≡ ok result
  pub persistable : (is_empty result.conflicts || can_persist_conflicts req result.conflicts) ≡ true
  pub preview : lookup req.preview_id t.previews ≡ none
  pub request : lookup job.id t.job_requests ≡ none

abbrev Ended :
    Env → ScheduleJob → ScheduleRequest → MemoryStore → Result (MemoryStore × ScheduleJob) → Type 0
Ended env job req s r =
    (t : MemoryStore) × (final : ScheduleJob) × (r ≡ ok (t, final))
    × (t.line_locks ≡ s.line_locks)
    × (IsFailure s t final ⊎ IsCompletion env job req s t final)

failed-Ended :
    (env : Env) (job : ScheduleJob) (req : ScheduleRequest) (s : MemoryStore) (message : String)
    → Ended env job req s (ok (fail_schedule_job_locked env job message s))
unfolding fail_schedule_job_locked
failed-Ended env job req s message =
    let out = fail_schedule_job_locked env job message s in
    (
      out.0,
      out.1,
      refl,
      refl,
      inl (record {
        status = refl;
        orders = refl;
        allocations = refl;
        lines = refl;
        previews = refl;
      }),
    )

completed-Ended :
    (env : Env) (job : ScheduleJob) (req : ScheduleRequest) (result : PlanResult) (s : MemoryStore)
    → revision_of job.line_id s ≡ job.line_revision
    → plan_locked env req (preview_claims_locked job.preview_id job.line_id s) s ≡ ok result
    → (is_empty result.conflicts || can_persist_conflicts req result.conflicts) ≡ true
    → Ended env job req s (complete_schedule_job_locked env job req result s)
unfolding complete_schedule_job_locked
completed-Ended env job req result s current planned free =
    let before : MemoryStore = put_job (completed_job env job) s in
    let (u, persisted) = persist-total env result.allocations before in
    let bumped : MemoryStore = bump_line_revision_locked job.line_id u in
    let t : MemoryStore = record bumped {
      previews = delete req.preview_id bumped.previews;
      job_requests = delete job.id bumped.job_requests;
    } in
    (
      t,
      completed_job env job,
      rw (complete_schedule_job_locked, persisted) refl,
      ap (λ p. p.0)
          (bump-untouched job.line_id u
            ∙ persist-untouched env result.allocations before u persisted),
      inr (record {
        status = refl;
        revision = current;
        result = result;
        planned = planned;
        persistable = free;
        preview =
            lookup-delete req.preview_id req.preview_id bumped.previews
            ∙ ground (arith, eq_iff req.preview_id req.preview_id);
        request =
            lookup-delete job.id job.id bumped.job_requests ∙ ground (arith, eq_iff job.id job.id);
      }),
    )

execute_locked-Ended :
    (env : Env) (job : ScheduleJob) (req : ScheduleRequest) (s : MemoryStore)
    → job_status_eq job.status JobStatus.cancelled ≡ false
    → Ended env job req s (execute_locked env job req s)
unfolding execute_locked
execute_locked-Ended env job req s running =
    elim (Bool-cases (revision_of job.line_id s == job.line_revision)) [
      | inr stale ↦ rw (execute_locked, running, stale) (failed-Ended env job req s _)
      | inl current ↦
          elim (Result-cases
            (plan_locked env req (preview_claims_locked job.preview_id job.line_id s) s)) [
              | inr (e, refused) ↦
                  rw (execute_locked, running, current, refused) (failed-Ended env job req s _)
              | inl (result, planned) ↦
                  elim (Bool-cases (
                    not (is_empty result.conflicts)
                    && not (can_persist_conflicts req result.conflicts))) [
                      | inl blocked ↦
                          rw (execute_locked, running, current, planned, blocked)
                            (failed-Ended env job req s _)
                      | inr free ↦
                          rw (execute_locked, running, current, planned, free)
                            (completed-Ended env job req result s
                              ((==_iff (revision_of job.line_id s) _).0 current) planned
                              (ground (arith, free)))
                    ]
            ]
    ]

-- The store in which a job runs: the job is running and its line is locked.
abbrev pub running_store : Env → ScheduleJob → MemoryStore → MemoryStore
running_store env job s = put_job (started_job env job) (lock_line job.line_id s)

unlocked :
    (l : String) (locks : List String)
    → contains locks l ≡ false
    → keep (λ x. not (str_eq x l)) locks ≡ locks
unfolding contains keep
unlocked l [] h = refl
unlocked l (x ∷ locks) h = ground (arith, h, unlocked l locks)

unlocked_again :
    (l : String) (locks : List String)
    → contains locks l ≡ false
    → keep (λ x. not (str_eq x l)) (l ∷ locks) ≡ locks
unfolding keep
unlocked_again l locks h = ground (arith, eq_iff l l, unlocked l locks h)

-- A queued job whose request is known ends when it is executed: no search runs out of fuel, the lines
-- that were locked are locked again, and either the job failed and orders, allocations, lines and
-- previews are unchanged, or it was completed on a line whose revision is its preview's, its plan has no
-- conflict but those that a manual force with a reason may persist, and its preview and request are
-- gone.
pub execute_schedule_job-Ended :
    (env : Env) (id : String) (s : MemoryStore) (job : ScheduleJob) (req : ScheduleRequest)
    → lookup id s.jobs ≡ some job
    → job.status ≡ JobStatus.queued
    → lookup id s.job_requests ≡ some req
    → (t : MemoryStore) × (final : ScheduleJob) × (execute_schedule_job env id s ≡ ok (t, final))
      × (t.line_locks ≡ s.line_locks)
      × (IsFailure s t final
          ⊎ IsCompletion env (started_job env job) req (running_store env job s) t final)
unfolding execute_schedule_job run_schedule_job_locked fail_schedule_job_locked
execute_schedule_job-Ended env id s job req found queued asked =
    elim (Bool-cases (contains s.line_locks job.line_id)) [
      | inl busy ↦
          let out = fail_schedule_job_locked env job "產線正在排程中，請稍後再試。" s in
          (
            out.0,
            out.1,
            rw (execute_schedule_job, found, going, asked, busy) refl,
            refl,
            inl (record {
              status = refl;
              orders = refl;
              allocations = refl;
              lines = refl;
              previews = refl;
            }),
          )
      | inr idle ↦
          let (u, final, ran, locks, ended) =
            execute_locked-Ended env (started_job env job) req (running_store env job s) refl in
          (
            unlock_line job.line_id u,
            final,
            rw (execute_schedule_job, found, going, asked, idle, ran) refl,
            ap (keep (λ x. not (str_eq x job.line_id))) locks
                ∙ unlocked_again job.line_id s.line_locks idle,
            elim ended [
              | inl f ↦ inl (record {
                status = f.status;
                orders = f.orders;
                allocations = f.allocations;
                lines = f.lines;
                previews = f.previews;
              })
              | inr c ↦ inr (record {
                status = c.status;
                revision = c.revision;
                result = c.result;
                planned = c.planned;
                persistable = c.persistable;
                preview = c.preview;
                request = c.request;
              })
            ],
          )
    ]
  where
    going :
        (job_status_eq job.status JobStatus.cancelled
          || job_status_eq job.status JobStatus.completed
          || job_status_eq job.status JobStatus.failed)
        ≡ false
    going = ground (arith, queued)
