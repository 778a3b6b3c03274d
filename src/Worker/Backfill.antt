-- ===== src/Worker/Backfill.antt =====
-- `backfillQueuedJobs` of cmd/scheduler-worker/main.go: the queued jobs are run in batches, in the order
-- of their creation, from a cursor on.
use woms.Base.{
  ℕ, zero, suc, Bool, true, false, ◌&&◌, ◌||◌, not, List, [], ◌∷◌, Option, none, some, str_lt,
  String, ltb, ◌==◌, if◌then◌else◌, keep, length,
}
use woms.Base.Maps.{values}
use woms.Clock.{Time, before}
use woms.Domain.{ScheduleJob, JobStatus, job_status_eq, zero_job}
use woms.Scheduler.Sorting.{stable_sort}
use woms.Lock.Provider.{Provider}
use woms.Worker.Database.{JobRow, Tables, WorkError, done, failed}
use woms.Worker.JobRun.{WorkerEnv}
use woms.Worker.Delivery.{WorkerJobConfig, Pace, World, process_job_payload}

-- `backfillCursor`; `none` is the cursor that is not active.
abbrev pub Cursor : Type 0
Cursor = Option (Time × String)

abbrev pub backfill_batch_size : ℕ
backfill_batch_size = 100

-- `ORDER BY created_at, id`
unfoldable pub job_row_less : JobRow → JobRow → Bool
job_row_less a b =
    if not (a.job.created_at == b.job.created_at)
    then before a.job.created_at b.job.created_at
    else str_lt a.job.id b.job.id

unfoldable pub behind_cursor : Cursor → JobRow → Bool
behind_cursor none row = true
behind_cursor (some (created_at, id)) row =
    before created_at row.job.created_at || row.job.created_at == created_at && str_lt id row.job.id

abbrev pub take {ℓ} : {A : Type ℓ} → ℕ → List A → List A
take zero xs = []
take (suc n) [] = []
take (suc n) (x ∷ xs) = x ∷ take n xs

abbrev is_queued_behind : Cursor → JobRow → Bool
is_queued_behind cursor row =
    job_status_eq row.job.status JobStatus.queued && behind_cursor cursor row

unfoldable pub query_queued_job_batch : Cursor → ℕ → Tables → List JobRow
unfolding stable_sort job_row_less keep
query_queued_job_batch cursor limit t =
    take limit (stable_sort job_row_less (keep (is_queued_behind cursor) (values t.schedule_jobs)))

-- The columns that are read, with the status that is set.
unfoldable pub scan_queued_schedule_job : JobRow → ScheduleJob
scan_queued_schedule_job row = record zero_job {
  id = row.job.id;
  line_id = row.job.line_id;
  source = row.job.source;
  preview_id = row.job.preview_id;
  request_hash = row.job.request_hash;
  line_revision = row.job.line_revision;
  order_ids = row.job.order_ids;
  created_at = row.job.created_at;
  updated_at = row.job.updated_at;
  status = JobStatus.queued;
}

module _ {ℓ} {L : Type ℓ} (env : WorkerEnv) (provider : Option (Provider L))
    (config : WorkerJobConfig) (pace : Pace) where
  unfoldable pub process_backfill_job : ScheduleJob → World L → World L × Option WorkError
  unfolding process_job_payload
  process_backfill_job job w = elim (env.marshal_job job) [
    | failed e ↦ (w, some e)
    | done payload ↦ process_job_payload env provider config pace payload w
  ]

  abbrev cursor_at : ScheduleJob → Cursor
  cursor_at job = some (job.created_at, job.id)

  -- The loop over the rows of a batch: an error of a job is only logged.
  unfoldable pub process_batch : List JobRow → Cursor → World L → World L × Cursor
  unfolding process_backfill_job scan_queued_schedule_job
  process_batch [] cursor w = (w, cursor)
  process_batch (row ∷ rows) cursor w =
      let (run, error) = process_backfill_job (scan_queued_schedule_job row) w in
      process_batch rows (cursor_at (scan_queued_schedule_job row)) run

  -- The rows of a batch are those of the tables when its query runs; the count of the batch comes back.
  unfoldable pub backfill_next_batch : Cursor → World L → World L × ℕ × Cursor
  unfolding query_queued_job_batch process_batch
  backfill_next_batch cursor w =
      let rows = query_queued_job_batch cursor backfill_batch_size w.db.tables in
      let (last, next_cursor) = process_batch rows cursor w in (last, length rows, next_cursor)

  -- The loop of batches; `none` means that the fuel ran out.
  unfoldable pub backfill_queued_jobs : ℕ → Cursor → World L → Option (World L)
  unfolding backfill_next_batch
  backfill_queued_jobs zero cursor w = none
  backfill_queued_jobs (suc fuel) cursor w =
      let (next, count, next_cursor) = backfill_next_batch cursor w in
      elim (ltb count backfill_batch_size) [
        | true ↦ some next
        | false ↦ backfill_queued_jobs fuel next_cursor next
      ]
