-- ===== src/Api/Jobs.antt =====
-- The previews and jobs of internal/api/server.go: a preview stores a plan, a job is created for an
-- unchanged preview and executed on the store as it is then.
use woms.Base.{
  ℕ, suc, Bool, not, ◌&&◌, ◌||◌, List, ◌∷◌, Option, none, some, String, str_eq, ◌==◌, keep,
  contains, is_empty, if◌then◌else◌,
}
use woms.Base.Maps.{lookup, insert, delete}
use woms.Base.Results.{Result, ok, err, or_fail, refuse_if, ◌>>=◌, ◌>>◌}
use woms.Base.Text.{itoa}
use woms.Clock.{Time}
use woms.Domain.{JobStatus, ScheduleJob, zero_job, job_status_eq, role_eq, scheduler}
use woms.Scheduler.Types.{Allocation, Conflict, PlanResult}
use woms.Api.Requests.{Claims, ScheduleRequest, PreviewRecord, CreateOrderRequest}
use woms.Api.State.{Env, MemoryStore, bump_line_revision_locked, audit_locked}
use woms.Api.Inputs.{schedule_line_id, has_draft}
use woms.Api.Planning.{
  plan_locked, default_schedule_current_date_locked, normalized_preview_request,
  same_schedule_request, can_persist_conflicts,
}
use woms.Api.Splits.{split_allocation_order_ids_locked, persist_allocations_locked}
use Prim.Native.String

pub record SchedulePreviewResponse : Type 0 where
  pub preview_id : String
  pub current_date : String
  pub allocations : List Allocation
  pub conflicts : List Conflict
  pub finish_date : Time
  pub draft_order : Option CreateOrderRequest

abbrev pub revision_of : String → MemoryStore → ℕ
revision_of line_id s = elim (lookup line_id s.lines) [
  | none ↦ 0
  | some line ↦ line.schedule_revision
]

-- The request with its date and the plan that `PreviewSchedule` shows.
unfoldable pub previewed :
    Env → ScheduleRequest → Claims → MemoryStore → Result (ScheduleRequest × PlanResult)
unfolding default_schedule_current_date_locked plan_locked split_allocation_order_ids_locked
previewed env req_in claims s = do
  req ← default_schedule_current_date_locked env req_in claims s
  result ← plan_locked env req claims s
  if has_draft req
      then ok (req, result)
      else (split_allocation_order_ids_locked result.allocations s >>= λ (allocations, _).
          ok (req, record result { allocations = allocations }))

unfoldable pub preview_schedule :
    Env → ScheduleRequest → Claims → MemoryStore → MemoryStore × Result SchedulePreviewResponse
unfolding previewed schedule_line_id normalized_preview_request
preview_schedule env req_in claims s = elim (previewed env req_in claims s) [
  | err e ↦ (s, err e)
  | ok (req, result) ↦
      let line_id : String = schedule_line_id req claims in
      let id : String = String.◌++◌ "PREVIEW-" (itoa s.next_preview_id) in
      let normalized : ScheduleRequest = normalized_preview_request req in
      (
        record s {
          next_preview_id = suc s.next_preview_id;
          previews =
              insert id
                (record {
                  actor_id = claims.subject;
                  actor_role = claims.role;
                  line_id = line_id;
                  line_revision = revision_of line_id s;
                  request = normalized;
                  request_hash = env.request_hash normalized;
                  draft_order = req.draft_order;
                  allocations = result.allocations;
                  conflicts = result.conflicts;
                  created_at = env.now;
                })
                s.previews;
        },
        ok (record {
          preview_id = id;
          current_date = req.current_date;
          allocations = result.allocations;
          conflicts = result.conflicts;
          finish_date = result.finish_date;
          draft_order = req.draft_order;
        }),
      )
]

abbrev pub owns_preview : Claims → PreviewRecord → Bool
owns_preview claims preview =
    str_eq preview.actor_id claims.subject && role_eq preview.actor_role claims.role

unfoldable pub validated_schedule_job_preview_locked :
    ScheduleRequest → Claims → MemoryStore → Result PreviewRecord
unfolding same_schedule_request normalized_preview_request schedule_line_id
validated_schedule_job_preview_locked req claims s = do
  refuse_if (str_eq req.preview_id "") "previewId is required before creating a schedule job"
  preview ← or_fail (lookup req.preview_id s.previews) "preview result expired or not found"
  refuse_if (not (owns_preview claims preview)) "preview result belongs to another user"
  refuse_if (not (same_schedule_request preview.request (normalized_preview_request req)))
      "schedule request changed after preview"
  line ← or_fail (lookup preview.line_id s.lines) "production line does not exist"
  refuse_if (not (line.schedule_revision == preview.line_revision)) "排程資料已變更，請重新試排。"
  refuse_if (not (str_eq claims.line_id (schedule_line_id req claims)))
      "cannot schedule another production line"
  ok preview

-- The dated request and the preview of a job that may be created.
unfoldable pub creatable_job :
    Env → ScheduleRequest → Claims → MemoryStore → Result (ScheduleRequest × PreviewRecord)
unfolding default_schedule_current_date_locked validated_schedule_job_preview_locked
creatable_job env req_in claims s = do
  req ← default_schedule_current_date_locked env req_in claims s
  preview ← validated_schedule_job_preview_locked req claims s
  ok (req, preview)

abbrev new_job : Env → String → ScheduleRequest → Claims → PreviewRecord → ScheduleJob
new_job env id req claims preview = record zero_job {
  id = id;
  line_id = schedule_line_id req claims;
  status = JobStatus.queued;
  preview_id = req.preview_id;
  request_hash = preview.request_hash;
  line_revision = preview.line_revision;
  order_ids = req.order_ids;
  created_at = env.now;
  updated_at = env.now;
}

unfoldable pub create_schedule_job :
    Env → ScheduleRequest → Claims → MemoryStore → MemoryStore × Result ScheduleJob
unfolding creatable_job audit_locked schedule_line_id
create_schedule_job env req_in claims s = elim (creatable_job env req_in claims s) [
  | err e ↦ (s, err e)
  | ok (req, preview) ↦
      let id : String = String.◌++◌ "JOB-" (itoa s.next_job_id) in
      let job : ScheduleJob = new_job env id req claims preview in
      let audited : MemoryStore =
        audit_locked env claims.subject "schedule.job.create" id req.reason (record s {
          next_job_id = suc s.next_job_id;
          jobs = insert id job s.jobs;
          job_requests = insert id req s.job_requests;
        }) in
      (
        if req.manual_force
            then audit_locked env claims.subject "schedule.job.manual_force" id req.reason audited
            else audited,
        ok job,
      )
]

unfoldable pub delete_queued_schedule_job : String → MemoryStore → MemoryStore
unfolding delete
delete_queued_schedule_job id s = elim (lookup id s.jobs) [
  | none ↦ s
  | some job ↦
      if job_status_eq job.status JobStatus.queued
      then record s { jobs = delete id s.jobs; job_requests = delete id s.job_requests }
      else s
]

unfoldable pub get_schedule_job : String → MemoryStore → Option ScheduleJob
get_schedule_job id s = lookup id s.jobs

abbrev pub put_job : ScheduleJob → MemoryStore → MemoryStore
put_job job s = record s { jobs = insert job.id job s.jobs }

unfoldable pub fail_schedule_job_locked :
    Env → ScheduleJob → String → MemoryStore → MemoryStore × ScheduleJob
fail_schedule_job_locked env job message s =
    let failed : ScheduleJob = record job {
      status = JobStatus.failed;
      message = message;
      updated_at = env.now;
    } in
    (put_job failed s, failed)

abbrev pub started_job : Env → ScheduleJob → ScheduleJob
started_job env job = record job {
  status = JobStatus.running;
  message = "排程任務執行中。";
  started_at = env.now;
  updated_at = env.now;
}

unfoldable pub run_schedule_job_locked : Env → ScheduleJob → MemoryStore → MemoryStore × ScheduleJob
run_schedule_job_locked env job s = (put_job (started_job env job) s, started_job env job)

abbrev pub completed_job : Env → ScheduleJob → ScheduleJob
completed_job env job = record job {
  status = JobStatus.completed;
  message = "排程任務已完成。";
  completed_at = env.now;
  updated_at = env.now;
}

unfoldable pub complete_schedule_job_locked :
    Env
    → ScheduleJob
    → ScheduleRequest
    → PlanResult
    → MemoryStore
    → Result (MemoryStore × ScheduleJob)
unfolding persist_allocations_locked bump_line_revision_locked delete
complete_schedule_job_locked env job req result s =
    let done : ScheduleJob = completed_job env job in
    persist_allocations_locked env result.allocations (put_job done s) >>= λ persisted.
    let bumped : MemoryStore = bump_line_revision_locked job.line_id persisted in
    ok (
      record bumped {
        previews = delete req.preview_id bumped.previews;
        job_requests = delete job.id bumped.job_requests;
      },
      done,
    )

unfoldable pub preview_claims_locked : String → String → MemoryStore → Claims
preview_claims_locked preview_id line_id s = elim (lookup preview_id s.previews) [
  | none ↦ record { subject = ""; role = scheduler; line_id = line_id; expires = 0 }
  | some preview ↦ record {
    subject = preview.actor_id;
    role = preview.actor_role;
    line_id = line_id;
    expires = 0;
  }
]

-- The part of `ExecuteScheduleJob` that runs while the line is locked.
unfoldable pub execute_locked :
    Env → ScheduleJob → ScheduleRequest → MemoryStore → Result (MemoryStore × ScheduleJob)
unfolding fail_schedule_job_locked plan_locked preview_claims_locked can_persist_conflicts
    complete_schedule_job_locked
execute_locked env job req s =
    if job_status_eq job.status JobStatus.cancelled
    then ok (s, job)
    else if not (revision_of job.line_id s == job.line_revision)
    then ok (fail_schedule_job_locked env job "排程資料已變更，請重新試排。" s)
    else elim (plan_locked env req (preview_claims_locked job.preview_id job.line_id s) s) [
      | err e ↦ ok (fail_schedule_job_locked env job e s)
      | ok result ↦
          if not (is_empty result.conflicts) && not (can_persist_conflicts req result.conflicts)
          then ok (fail_schedule_job_locked env job "排程結果仍有衝突，請重新檢查後再送出。" s)
          else complete_schedule_job_locked env job req result s
    ]

abbrev pub lock_line : String → MemoryStore → MemoryStore
lock_line line_id s = record s { line_locks = line_id ∷ s.line_locks }

abbrev pub unlock_line : String → MemoryStore → MemoryStore
unlock_line line_id s = record s { line_locks = keep (λ id. not (str_eq id line_id)) s.line_locks }

-- `err` stands only for a search that ran out of fuel: a job that fails is a result.
unfoldable pub execute_schedule_job :
    Env → String → MemoryStore → Result (MemoryStore × ScheduleJob)
unfolding run_schedule_job_locked execute_locked contains keep
execute_schedule_job env id s = elim (lookup id s.jobs) [
  | none ↦ ok (s, zero_job)
  | some job ↦
      if job_status_eq job.status JobStatus.cancelled
        || job_status_eq job.status JobStatus.completed
        || job_status_eq job.status JobStatus.failed
      then ok (s, job)
      else elim (lookup id s.job_requests) [
        | none ↦ ok (fail_schedule_job_locked env job "找不到排程任務內容。" s)
        | some req ↦
            if contains s.line_locks job.line_id
            then ok (fail_schedule_job_locked env job "產線正在排程中，請稍後再試。" s)
            else (let (run_store, started) =
                  run_schedule_job_locked env job (lock_line job.line_id s) in
                execute_locked env started req run_store >>= λ (after, final).
                ok (unlock_line job.line_id after, final))
      ]
]
