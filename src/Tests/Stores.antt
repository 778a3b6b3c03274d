-- ===== src/Tests/Stores.antt =====
-- A small store of internal/api/server.go, and the theorems about its operations at it.
use woms.Base.{◌+◌, ◌*◌, refl, true, false, [], ◌∷◌, none, some, str_eq, eq_iff, arith}
use woms.Base.Maps.{lookup}
use woms.Base.Results.{ok}
use woms.Clock.{Time}
use woms.Domain.{
  Order, ScheduleJob, JobStatus, OrderStatus, sales, scheduler, low, zero_order, zero_job,
}
use woms.Api.Requests.{Claims, ScheduleRequest}
use woms.Api.State.{Env, MemoryStore, order_id_from_sequence}
use woms.Api.Lifecycle.{IsKeyed}
use woms.Api.Evolution.Cancel.{IsNextFree}
use Prim.Native.String

abbrev pub today : Time
today = 740136 * 86400000000000

abbrev pub env : Env
env = record {
  now = today + 5;
  load_location = λ name. some (λ t. t);
  crypto = record {
    bcrypt_hash = λ password. ok (String.◌++◌ "h:" password);
    bcrypt_matches = λ hash password. str_eq hash (String.◌++◌ "h:" password);
    base64_decode = λ text. some text;
    sha256 = λ text. text;
  };
  request_hash = λ req. "hash";
}

abbrev pub pending_order : Order
pending_order = record zero_order {
  id = "ORD-0000001";
  customer = "Ada";
  line_id = "A";
  quantity = 60;
  priority = low;
  status = OrderStatus.pending;
  due_date = today + 10 * 86400000000000;
  created_by = "user-ada";
}

abbrev pub running_order : Order
running_order = record pending_order { id = "ORD-0000002"; status = OrderStatus.in_progress }

abbrev pub done_order : Order
done_order = record pending_order { id = "ORD-0000003"; status = OrderStatus.completed }

abbrev pub job_request : ScheduleRequest
job_request = record {
  line_id = "A";
  start_date = "2026-06-05";
  current_date = "2026-06-04";
  order_ids = [];
  resolution_order_ids = [];
  manual_force = false;
  allow_late_completion = false;
  reason = "";
  preview_id = "PREVIEW-1";
  draft_order = none;
}

abbrev pub queued_job : ScheduleJob
queued_job = record zero_job {
  id = "JOB-1";
  line_id = "A";
  status = JobStatus.queued;
  preview_id = "PREVIEW-1";
}

abbrev pub store : MemoryStore
store = record {
  next_order_id = 4;
  next_job_id = 2;
  next_audit_id = 1;
  next_preview_id = 2;
  lines =
      (
        "A",
        record {
          id = "A";
          name = "Line A";
          capacity_per_day = 50;
          timezone = "";
          schedule_revision = 0;
        },
      )
      ∷ [];
  users =
      (
        "ada",
        record {
          id = "user-ada";
          username = "ada";
          password_hash = "bcrypt$h:pw";
          role = sales;
          line_id = "";
          disabled = false;
          deleted = false;
        },
      )
      ∷ [];
  orders =
      ("ORD-0000001", pending_order)
      ∷ ("ORD-0000002", running_order)
      ∷ ("ORD-0000003", done_order)
      ∷ [];
  jobs = ("JOB-1", queued_job) ∷ [];
  job_requests = ("JOB-1", job_request) ∷ [];
  allocations =
      record {
        order_id = "ORD-0000002";
        line_id = "A";
        date = today;
        quantity = 60;
        priority = low;
        locked = true;
        status = OrderStatus.in_progress;
      }
      ∷ [];
  previews = [];
  audits = [];
  line_locks = [];
}

abbrev pub ada : Claims
ada = record { subject = "user-ada"; role = sales; line_id = ""; expires = 0 }

abbrev pub planner : Claims
planner = record { subject = "user-bo"; role = scheduler; line_id = "A"; expires = 0 }

pub store-IsKeyed : IsKeyed (store.orders)
unfolding IsKeyed lookup
store-IsKeyed id o h =
    ground (arith, h, eq_iff "ORD-0000001" id, eq_iff "ORD-0000002" id, eq_iff "ORD-0000003" id)

pub store-IsNextFree : IsNextFree store
unfolding IsNextFree lookup order_id_from_sequence
store-IsNextFree = refl
