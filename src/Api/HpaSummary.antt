-- ===== src/Api/HpaSummary.antt =====
-- `HPAPeakSummary` and `HPAPeakJobs` of internal/api/server.go, and the operations that make and clear
-- the demonstration. What the summary takes from the process environment and from Kubernetes is not
-- part of the state. Sums and sets do not depend on the order in which a Go map ranges; the first
-- five messages of failed jobs do, and here they are in the order of the list.
use woms.Base.{
  ℕ, zero, suc, ◌+◌, Bool, true, ◌&&◌, not, List, [], ◌∷◌, String, str_eq, str_lt, keep, length,
  map,
}
use woms.Base.Maps.{Map, insert, values}
use woms.Domain.{Order, ProductionLine, ScheduleJob, JobStatus, job_status_eq}
use woms.Scheduler.Sorting.{stable_sort}
use woms.Api.Requests.{Claims}
use woms.Api.State.{Env, MemoryStore}
use woms.Api.HpaDemo.{
  is_hpa_demo_line, is_hpa_demo_job, create_hpa_demo_lines, clear_hpa_peak_demo_locked,
  reset_hpa_peak_demo_locked,
}
use Prim.Native.String

pub record HpaPeakSummary : Type 0 where
  pub line_count : ℕ
  pub order_count : ℕ
  pub job_count : ℕ
  pub statuses : JobStatus → ℕ
  pub failed_messages : List String
  pub recent_jobs : List ScheduleJob

-- `sort.Slice` by ID: the IDs of a map are distinct.
unfoldable pub by_id : List ScheduleJob → List ScheduleJob
unfolding stable_sort
by_id jobs = stable_sort (λ (a b : ScheduleJob). str_lt a.id b.id) jobs

unfoldable pub hpa_peak_jobs : MemoryStore → List ScheduleJob
unfolding by_id keep is_hpa_demo_job
hpa_peak_jobs s = by_id (keep is_hpa_demo_job (values s.jobs))

abbrev on_demo_line : Order → Bool
on_demo_line order = is_hpa_demo_line order.line_id

-- The set of lines: those of the demo's orders, and the demo's lines.
unfoldable pub demo_line_ids : MemoryStore → Map Bool
unfolding insert keep is_hpa_demo_line
demo_line_ids s =
    add_all
      (map (λ (line : ProductionLine). line.id)
        (keep (λ (line : ProductionLine). is_hpa_demo_line line.id) (values s.lines)))
      (add_all (map (λ (order : Order). order.line_id) (keep on_demo_line (values s.orders))) [])
  where
    add_all : List String → Map Bool → Map Bool
    add_all [] ids = ids
    add_all (id ∷ rest) ids = add_all rest (insert id true ids)

unfoldable pub count_status : JobStatus → List ScheduleJob → ℕ
unfolding keep
count_status status jobs =
    length (keep (λ (job : ScheduleJob). job_status_eq job.status status) jobs)

unfoldable pub hpa_job_count : (JobStatus → ℕ) → ℕ
hpa_job_count statuses =
    statuses JobStatus.queued
    + statuses JobStatus.running
    + statuses JobStatus.completed
    + statuses JobStatus.failed
    + statuses JobStatus.cancelled

abbrev first_of {ℓ} : {A : Type ℓ} → ℕ → List A → List A
first_of zero xs = []
first_of (suc n) [] = []
first_of (suc n) (x ∷ xs) = x ∷ first_of n xs

unfoldable pub limit_recent_hpa_jobs : List ScheduleJob → List ScheduleJob
unfolding by_id
limit_recent_hpa_jobs jobs = first_of 10 (by_id jobs)

abbrev has_failed : ScheduleJob → Bool
has_failed job = job_status_eq job.status JobStatus.failed && not (str_eq job.message "")

unfoldable pub hpa_failed_messages : List ScheduleJob → List String
unfolding keep
hpa_failed_messages jobs = first_of 5 (
    map (λ (job : ScheduleJob). String.◌++◌ job.id (String.◌++◌ "：" job.message))
      (keep has_failed jobs))

unfoldable pub hpa_peak_summary : MemoryStore → HpaPeakSummary
unfolding keep is_hpa_demo_job is_hpa_demo_line demo_line_ids count_status hpa_job_count
    limit_recent_hpa_jobs hpa_failed_messages
hpa_peak_summary s =
    let jobs = keep is_hpa_demo_job (values s.jobs) in
    let statuses : JobStatus → ℕ = λ status. count_status status jobs in
    record {
      line_count = length (demo_line_ids s);
      order_count = length (keep on_demo_line (values s.orders));
      job_count = hpa_job_count statuses;
      statuses = statuses;
      failed_messages = hpa_failed_messages jobs;
      recent_jobs = limit_recent_hpa_jobs jobs;
    }

unfoldable pub create_hpa_peak_demo : Env → Claims → MemoryStore → MemoryStore × HpaPeakSummary
unfolding reset_hpa_peak_demo_locked create_hpa_demo_lines hpa_peak_summary
create_hpa_peak_demo env claims s =
    let made =
      create_hpa_demo_lines env claims.subject 1 200
        (reset_hpa_peak_demo_locked env claims.subject s) in
    (made, hpa_peak_summary made)

unfoldable pub clear_hpa_peak_demo : Env → Claims → MemoryStore → MemoryStore × HpaPeakSummary
unfolding clear_hpa_peak_demo_locked hpa_peak_summary
clear_hpa_peak_demo env claims s =
    let cleared = clear_hpa_peak_demo_locked env claims.subject s in
    (cleared, hpa_peak_summary cleared)
