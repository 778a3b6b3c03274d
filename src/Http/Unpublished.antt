-- ===== src/Http/Unpublished.antt =====
-- `handleScheduleJobs` of internal/api/server.go when the message of the job cannot be sent.
use Prim.Native.String
use woms.Base.{
  ◌≡◌, refl, sym, true, none, some, String, str_eq, eq_iff, if◌then◌else◌, Bool-cases, inl, inr,
  arith,
}
use woms.Base.Maps.{lookup, insert, delete, lookup-insert, lookup-delete}
use woms.Base.Text.{itoa}
use woms.Base.Results.{Result, ok, err, ok≢err, ok-injective}
use woms.Domain.{ScheduleJob, JobStatus, is_scheduler}
use woms.Api.Requests.{Claims, ScheduleRequest, PreviewRecord}
use woms.Api.State.{Env, MemoryStore, audit_locked}
use woms.Api.Jobs.{creatable_job, create_schedule_job, delete_queued_schedule_job}
use woms.Http.Store.{memory_store}
use woms.Http.Server.{HttpRequest, Server, World, write_error}
use woms.Http.Scheduling.{handle_schedule_jobs, created}

abbrev job_id : MemoryStore → String
job_id s = String.◌++◌ "JOB-" (itoa s.next_job_id)

-- A store that has a new queued job.
record Adds (s : MemoryStore) (out : MemoryStore × Result ScheduleJob) : Type 0 where
  job : ScheduleJob
  made : out.1 ≡ ok job
  named : job.id ≡ job_id s
  queued : job.status ≡ JobStatus.queued
  jobs : out.0.jobs ≡ insert job.id job s.jobs
  orders : out.0.orders ≡ s.orders
  allocations : out.0.allocations ≡ s.allocations

create_schedule_job-Adds :
    (env : Env) (req dated : ScheduleRequest) (c : Claims) (preview : PreviewRecord)
    (s : MemoryStore)
    → creatable_job env req c s ≡ ok (dated, preview)
    → Adds s (create_schedule_job env req c s)
unfolding create_schedule_job audit_locked
create_schedule_job-Adds env req dated c preview s valid = elim (Bool-cases dated.manual_force) [
  | inl forced ↦
      rw (create_schedule_job, valid, forced)
        (record {
          job = _;
          made = refl;
          named = refl;
          queued = refl;
          jobs = refl;
          orders = refl;
          allocations = refl;
        })
  | inr free ↦
      rw (create_schedule_job, valid, free)
        (record {
          job = _;
          made = refl;
          named = refl;
          queued = refl;
          jobs = refl;
          orders = refl;
          allocations = refl;
        })
]

-- What a failed publication leaves of the store.
pub record IsWithdrawn (s t : MemoryStore) : Type 0 where
  pub id : String
  pub named : id ≡ job_id s
  pub jobs :
      (read : String) → lookup read t.jobs ≡ (if str_eq id read then none else lookup read s.jobs)
  pub orders : t.orders ≡ s.orders
  pub allocations : t.allocations ≡ s.allocations

delete_queued-found :
    (id : String) (job : ScheduleJob) (s : MemoryStore)
    → lookup id s.jobs ≡ some job
    → job.status ≡ JobStatus.queued
    → delete_queued_schedule_job id s
      ≡ record s { jobs = delete id s.jobs; job_requests = delete id s.job_requests }
unfolding delete_queued_schedule_job
delete_queued-found id job s found queued = rw (delete_queued_schedule_job, found, queued) refl

delete_queued-IsWithdrawn :
    (s t : MemoryStore) (job : ScheduleJob)
    → job.id ≡ job_id s
    → job.status ≡ JobStatus.queued
    → t.jobs ≡ insert job.id job s.jobs
    → t.orders ≡ s.orders
    → t.allocations ≡ s.allocations
    → IsWithdrawn s (delete_queued_schedule_job job.id t)
delete_queued-IsWithdrawn s t job named queued jobs orders allocations =
    let found : lookup job.id t.jobs ≡ some job =
      ground (arith, jobs, lookup-insert job.id job.id job s.jobs, eq_iff job.id job.id) in
    rw (delete_queued-found job.id job t found queued) (record {
      id = job.id;
      named = named;
      jobs = λ read.
          ground
            (arith, jobs, lookup-delete job.id read t.jobs, lookup-insert job.id read job s.jobs);
      orders = orders;
      allocations = allocations;
    })

-- A server whose store is the one in memory.
abbrev pub in_memory : {S : Type 0} → Server MemoryStore S → Env → Server MemoryStore S
in_memory srv env = record srv { store = memory_store env }

module _ {S : Type 0} (srv : Server MemoryStore S) (env : Env) where
  created-IsWithdrawn :
      (w : World MemoryStore S) (out : MemoryStore × Result ScheduleJob) (e : String)
      → ((job : ScheduleJob) → srv.publish job ≡ err e)
      → Adds w.store out
      → ((created (in_memory srv env) w out).1.status ≡ 502)
        × IsWithdrawn w.store (created (in_memory srv env) w out).0.store
  unfolding write_error
  created-IsWithdrawn w (t, err f) e fails adds = absurd (ok≢err (sym adds.made))
  created-IsWithdrawn w (t, ok job) e fails adds =
      let sent : ok job ≡ ok adds.job = adds.made in
      let is : job ≡ adds.job = ok-injective sent in
      rw (fails job) (
        refl,
        delete_queued-IsWithdrawn w.store t job (rw (is) adds.named) (rw (is) adds.queued)
            (rw (is) adds.jobs) adds.orders adds.allocations,
      )

  -- A schedule job whose message cannot be sent is answered with 502, and the store has no job under
  -- its ID, the other jobs as before, and the same orders and allocations. The request is a scheduler's
  -- POST that can be read and whose preview is valid.
  pub handle_schedule_jobs-IsWithdrawn :
      (c : Claims) (r : HttpRequest) (w : World MemoryStore S) (e : String)
      → (req dated : ScheduleRequest) (preview : PreviewRecord)
      → ((job : ScheduleJob) → srv.publish job ≡ err e)
      → is_scheduler c.role ≡ true
      → str_eq r.method "POST" ≡ true
      → srv.reader.schedule r.body ≡ ok req
      → creatable_job env req c w.store ≡ ok (dated, preview)
      → let out = handle_schedule_jobs (in_memory srv env) c r w in
        (out.1.status ≡ 502) × IsWithdrawn w.store out.0.store
  unfolding handle_schedule_jobs
  handle_schedule_jobs-IsWithdrawn c r w e req dated preview fails role post reads valid =
      rw (handle_schedule_jobs, role, post, reads)
        (created-IsWithdrawn w (create_schedule_job env req c w.store) e fails
          (create_schedule_job-Adds env req dated c preview w.store valid))
