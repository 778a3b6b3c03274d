-- ===== src/Api/HpaDemo.antt =====
-- The data of the autoscaling demonstration in internal/api/server.go: 200 lines with orders and
-- jobs, made, listed, counted and removed.
use Prim.Native.Char.{code}
use woms.Base.{
  ℕ, zero, suc, Bool, false, ◌||◌, ◌&&◌, not, List, [], ◌∷◌, Option, none, some, String, str_eq,
  leb, ◌==◌, if◌then◌else◌, keep,
}
use woms.Base.Int.{ℤ, pos, negsuc}
use woms.Base.Integers.{atoi}
use woms.Base.Maps.{Map, lookup, insert, delete}
use woms.Base.Text.{itoa_padded}
use woms.Clock.{Time, add_days}
use woms.Domain.{
  ProductionLine, Order, OrderStatus, ScheduleAllocation, ScheduleJob, JobStatus, AuditEntry, low,
  zero_order, zero_job, job_status_eq,
}
use woms.Api.State.{Env, MemoryStore, audit_locked}
use Prim.Native.String

abbrev pub hpa_demo_source : String
hpa_demo_source = "hpa-peak-demo"

unfoldable pub hpa_demo_line_id : ℕ → String
unfolding itoa_padded
hpa_demo_line_id index = String.◌++◌ "L" (itoa_padded 3 index)

abbrev in_demo_range : Option ℤ → Bool
in_demo_range none = false
in_demo_range (some (negsuc n)) = false
in_demo_range (some (pos n)) = leb 1 n && leb n 200

unfoldable pub is_hpa_demo_line : String → Bool
unfolding atoi
is_hpa_demo_line String.[] = false
is_hpa_demo_line (String.◌∷◌ c rest) =
    String.len (String.◌∷◌ c rest) == 4 && (code c == b'L' && in_demo_range (atoi rest))

unfoldable pub is_hpa_demo_job : ScheduleJob → Bool
unfolding is_hpa_demo_line
is_hpa_demo_job job = str_eq job.source hpa_demo_source || is_hpa_demo_line job.line_id

unfoldable pub should_cancel_hpa_demo_job : ScheduleJob → Bool
should_cancel_hpa_demo_job job =
    job_status_eq job.status JobStatus.queued || job_status_eq job.status JobStatus.running

-- `for k, v := range m { if bad(k, v) { delete(m, k) } }`
unfoldable pub delete_where {ℓ} : {V : Type ℓ} → (String → V → Bool) → Map V → Map V
unfolding delete
delete_where bad [] = []
delete_where bad ((name, value) ∷ rest) =
    let kept = delete_where bad rest in
    if bad name value then delete name kept else (name, value) ∷ kept

unfoldable pub create_hpa_demo_line_locked : String → MemoryStore → MemoryStore
unfolding insert
create_hpa_demo_line_locked line_id s = record s {
  lines =
      insert line_id
        (record {
          id = line_id;
          name = String.◌++◌ "HPA Demo Line " line_id;
          capacity_per_day = 10000;
          timezone = "Asia/Taipei";
          schedule_revision = 0;
        })
        s.lines;
}

-- `fmt.Sprintf("%s%s-%03d", prefix, lineID, index)`
unfoldable pub hpa_demo_id : String → String → ℕ → String
unfolding itoa_padded
hpa_demo_id prefix line_id index =
    String.◌++◌ prefix (String.◌++◌ line_id (String.◌++◌ "-" (itoa_padded 3 index)))

unfoldable pub hpa_demo_order : Time → String → String → String → Order
unfolding add_days
hpa_demo_order now actor_id line_id id = record zero_order {
  id = id;
  customer = "HPA Demo";
  line_id = line_id;
  quantity = 2500;
  priority = low;
  status = OrderStatus.pending;
  due_date = add_days now 7;
  note = hpa_demo_source;
  created_by = actor_id;
  created_at = now;
  updated_at = now;
}

-- The loop over the orders of a line, from an index on.
unfoldable pub create_hpa_demo_orders_locked :
    Time → String → String → ℕ → ℕ → MemoryStore → MemoryStore × List String
unfolding insert hpa_demo_id hpa_demo_order
create_hpa_demo_orders_locked now actor_id line_id index zero s = (s, [])
create_hpa_demo_orders_locked now actor_id line_id index (suc left) s =
    let id = hpa_demo_id "HPA-" line_id index in
    let (last, ids) =
      create_hpa_demo_orders_locked now actor_id line_id (suc index) left
        (record s { orders = insert id (hpa_demo_order now actor_id line_id id) s.orders }) in
    (last, id ∷ ids)

unfoldable pub hpa_demo_job : Time → String → String → String → ScheduleJob
hpa_demo_job now line_id id order_id = record zero_job {
  id = id;
  line_id = line_id;
  status = JobStatus.queued;
  message = "多產線排程尖峰任務已送入背景佇列。";
  source = hpa_demo_source;
  order_ids = order_id ∷ [];
  created_at = now;
  updated_at = now;
}

-- The loop over the jobs of a line: the job of an index has the order of that index.
unfoldable pub create_hpa_demo_jobs_locked :
    Env → String → String → ℕ → ℕ → List String → MemoryStore → MemoryStore
unfolding insert hpa_demo_id hpa_demo_job audit_locked
create_hpa_demo_jobs_locked env actor_id line_id index zero order_ids s = s
create_hpa_demo_jobs_locked env actor_id line_id index (suc left) [] s = s
create_hpa_demo_jobs_locked env actor_id line_id index (suc left) (order_id ∷ order_ids) s =
    let id = hpa_demo_id "HPA-JOB-" line_id index in
    create_hpa_demo_jobs_locked env actor_id line_id (suc index) left order_ids (
      audit_locked env actor_id "schedule.job.create" id hpa_demo_source
        (record s { jobs = insert id (hpa_demo_job env.now line_id id order_id) s.jobs }))

-- The loop over the lines, from an index on.
unfoldable pub create_hpa_demo_lines : Env → String → ℕ → ℕ → MemoryStore → MemoryStore
unfolding hpa_demo_line_id create_hpa_demo_line_locked create_hpa_demo_orders_locked
    create_hpa_demo_jobs_locked
create_hpa_demo_lines env actor_id index zero s = s
create_hpa_demo_lines env actor_id index (suc left) s =
    let line_id = hpa_demo_line_id index in
    let (ordered, order_ids) =
      create_hpa_demo_orders_locked env.now actor_id line_id 1 5
        (create_hpa_demo_line_locked line_id s) in
    create_hpa_demo_lines env actor_id (suc index) left
      (create_hpa_demo_jobs_locked env actor_id line_id 1 2 order_ids ordered)

unfoldable pub cancelled_demo_job : Time → ScheduleJob → ScheduleJob
cancelled_demo_job now job = record job {
  status = JobStatus.cancelled;
  message = "排程尖峰展示已取消。";
  updated_at = now;
}

-- A demo job that waits or runs is cancelled, and one that ended is removed.
unfoldable pub clear_demo_jobs : Time → Map ScheduleJob → Map ScheduleJob
unfolding is_hpa_demo_job should_cancel_hpa_demo_job cancelled_demo_job
clear_demo_jobs now [] = []
clear_demo_jobs now ((id, job) ∷ rest) =
    let kept = clear_demo_jobs now rest in
    if not (is_hpa_demo_job job)
    then (id, job) ∷ kept
    else if should_cancel_hpa_demo_job job
    then (id, cancelled_demo_job now job) ∷ kept
    else kept

abbrev is_on_demo_line : Map ScheduleJob → AuditEntry → Bool
is_on_demo_line jobs entry = elim (lookup entry.resource jobs) [
  | none ↦ false
  | some job ↦ is_hpa_demo_line job.line_id
]

unfoldable pub keeps_audit : Map ScheduleJob → AuditEntry → Bool
unfolding lookup is_hpa_demo_line
keeps_audit jobs entry =
    not (str_eq entry.reason hpa_demo_source) && not (is_on_demo_line jobs entry)

-- The five loops, in their order.
unfoldable pub clear_demo_data : Time → MemoryStore → MemoryStore
unfolding clear_demo_jobs delete_where is_hpa_demo_line keep keeps_audit
clear_demo_data now s =
    let jobs = clear_demo_jobs now s.jobs in
    record s {
      jobs = jobs;
      orders = delete_where (λ id (order : Order). is_hpa_demo_line order.line_id) s.orders;
      allocations =
          keep (λ (a : ScheduleAllocation). not (is_hpa_demo_line a.line_id)) s.allocations;
      lines = delete_where (λ id (line : ProductionLine). is_hpa_demo_line id) s.lines;
      audits = keep (keeps_audit jobs) s.audits;
    }

unfoldable pub clear_hpa_peak_demo_locked : Env → String → MemoryStore → MemoryStore
unfolding clear_demo_data audit_locked
clear_hpa_peak_demo_locked env actor_id s =
    let cleared = clear_demo_data env.now s in
    if str_eq actor_id ""
    then cleared
    else audit_locked env actor_id "demo.hpa_peak.clear" hpa_demo_source hpa_demo_source cleared

unfoldable pub reset_hpa_peak_demo_locked : Env → String → MemoryStore → MemoryStore
unfolding clear_hpa_peak_demo_locked delete_where is_hpa_demo_job
reset_hpa_peak_demo_locked env actor_id s =
    let cleared = clear_hpa_peak_demo_locked env actor_id s in
    record cleared { jobs = delete_where (λ id job. is_hpa_demo_job job) cleared.jobs }
