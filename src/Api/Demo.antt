-- ===== src/Api/Demo.antt =====
-- `NewMemoryStore` and `CreateDemoConflictOrders` of internal/api/server.go, and
-- `NewDemoMemoryStore` of internal/api/demo.go.
use woms.Base.{ℕ, zero, suc, false, ◌&&◌, not, List, [], ◌∷◌, String, str_eq, leb, if◌then◌else◌}
use woms.Base.Int.{ℤ, pos, negsuc}
use woms.Base.Maps.{has}
use woms.Base.Results.{Result, ok, err, refuse_if, ◌>>=◌, ◌>>◌}
use woms.Base.Text.{itoa}
use woms.Clock.{Time, add_days, format_date}
use woms.Domain.{
  User, ProductionLine, Order, AuditEntry, Role, Priority, admin, sales, scheduler, low, high,
  is_scheduler,
}
use woms.Api.Requests.{Claims, CreateOrderRequest}
use woms.Api.State.{Env, MemoryStore, current_date_for_line_locked}
use woms.Api.Orders.{create_order_locked}
use Prim.Native.String

abbrev demo_line : String → String → String × ProductionLine
demo_line id timezone = (
  id,
  record {
    id = id;
    name = String.◌++◌ "Line " id;
    capacity_per_day = 10000;
    timezone = timezone;
    schedule_revision = 0;
  },
)

abbrev demo_user : String → Role → String → String × User
demo_user username role line_id = (
  username,
  record {
    id = String.◌++◌ "user-" username;
    username = username;
    password_hash = "demo";
    role = role;
    line_id = line_id;
    disabled = false;
    deleted = false;
  },
)

-- The store that the service starts with.
abbrev pub new_memory_store : MemoryStore
new_memory_store = record {
  next_order_id = 1;
  next_job_id = 1;
  next_audit_id = 1;
  next_preview_id = 1;
  lines =
      demo_line "A" "Asia/Taipei"
      ∷ demo_line "B" "Asia/Taipei"
      ∷ demo_line "C" "Asia/Taipei"
      ∷ demo_line "D" "Europe/London"
      ∷ [];
  users =
      demo_user "admin" admin ""
      ∷ demo_user "sales" sales ""
      ∷ demo_user "scheduler-a" scheduler "A"
      ∷ demo_user "scheduler-b" scheduler "B"
      ∷ demo_user "scheduler-c" scheduler "C"
      ∷ demo_user "scheduler-d" scheduler "D"
      ∷ [];
  orders = [];
  jobs = [];
  job_requests = [];
  allocations = [];
  previews = [];
  audits = [];
  line_locks = [];
}

abbrev seed_order : String → String → Priority → String → CreateOrderRequest
seed_order customer line_id priority due_date = record {
  customer = customer;
  line_id = line_id;
  quantity = pos 2500;
  priority = priority;
  due_date = due_date;
  note = "";
}

abbrev pub demo_seed : List CreateOrderRequest
demo_seed =
    seed_order "TSMC" "B" high "2026-06-04"
    ∷ seed_order "ASE" "A" low "2026-06-05"
    ∷ seed_order "TSMC" "A" low "2026-06-04"
    ∷ seed_order "TSMC" "A" low "2026-06-04"
    ∷ seed_order "TSMC" "A" low "2026-06-04"
    ∷ seed_order "TSMC" "A" low "2026-06-04"
    ∷ seed_order "ASE" "A" low "2026-06-05"
    ∷ seed_order "ASE" "A" low "2026-06-05"
    ∷ seed_order "ASE" "A" low "2026-06-05"
    ∷ []

-- The loop over the seed; an order that is refused is left out.
unfoldable pub create_seed : Env → List CreateOrderRequest → MemoryStore → MemoryStore
unfolding create_order_locked
create_seed env [] s = s
create_seed env (req ∷ reqs) s = create_seed env reqs (create_order_locked env req "user-sales" s).0

unfoldable pub new_demo_memory_store : Env → MemoryStore
unfolding create_seed
new_demo_memory_store env = create_seed env demo_seed new_memory_store

pub record DemoConflictRequest : Type 0 where
  pub line_id : String
  pub due_date : String
  pub count : ℤ

unfoldable pub demo_line_id : DemoConflictRequest → Claims → String
demo_line_id req claims =
    if str_eq req.line_id "" && is_scheduler claims.role then claims.line_id else req.line_id

-- `req.Count`, with its default and its bounds.
abbrev pub demo_count : ℤ → Result ℕ
demo_count (negsuc n) = err "count must be between 5 and 20"
demo_count (pos zero) = ok 6
demo_count (pos (suc n)) =
    if leb 5 (suc n) && leb (suc n) 20 then ok (suc n) else err "count must be between 5 and 20"

abbrev day_after : Result Time → Result String
day_after (err e) = err e
day_after (ok date) = ok (format_date (add_days date 1))

unfoldable pub demo_due_date : Env → String → String → MemoryStore → Result String
unfolding current_date_for_line_locked add_days format_date
demo_due_date env line_id due_date s =
    if str_eq due_date ""
    then day_after (current_date_for_line_locked env line_id s)
    else ok due_date

-- `s.audits[len(s.audits)-1].Action = …; s.audits[len(s.audits)-1].Reason = …`
unfoldable pub relabel_last : String → String → List AuditEntry → List AuditEntry
relabel_last action reason [] = []
relabel_last action reason (entry ∷ []) = record entry { action = action; reason = reason } ∷ []
relabel_last action reason (entry ∷ next ∷ entries) =
    entry ∷ relabel_last action reason (next ∷ entries)

abbrev pub conflict_order : String → String → ℕ → CreateOrderRequest
conflict_order line_id due_date index = record {
  customer = String.◌++◌ "Conflict Demo " (itoa index);
  line_id = line_id;
  quantity = pos 2500;
  priority = low;
  due_date = due_date;
  note = "";
}

-- The loop from an index on, for so many orders: an order that is refused ends it.
unfoldable pub create_conflict_orders :
    Env → String → String → String → ℕ → ℕ → MemoryStore → MemoryStore × Result (List Order)
unfolding create_order_locked relabel_last
create_conflict_orders env line_id due_date actor_id index zero s = (s, ok [])
create_conflict_orders env line_id due_date actor_id index (suc left) s =
    let (created, result) =
      create_order_locked env (conflict_order line_id due_date index) actor_id s in
    elim result [
      | err e ↦ (created, err e)
      | ok order ↦
          let (last, orders) =
            create_conflict_orders env line_id due_date actor_id (suc index) left (record created {
              audits = relabel_last "order.create_demo_conflict" due_date created.audits;
            }) in
          (last, orders >>= λ rest. ok (order ∷ rest))
    ]

-- What is checked before the loop: the count and the due date.
unfoldable pub demo_request : Env → DemoConflictRequest → Claims → MemoryStore → Result (ℕ × String)
unfolding demo_line_id demo_due_date has
demo_request env req claims s = do
  refuse_if (is_scheduler claims.role && not (str_eq (demo_line_id req claims) claims.line_id))
      "cannot create demo orders for another production line"
  refuse_if (not (has (demo_line_id req claims) s.lines)) "production line does not exist"
  count ← demo_count req.count
  due_date ← demo_due_date env (demo_line_id req claims) req.due_date s
  ok (count, due_date)

unfoldable pub create_demo_conflict_orders :
    Env → DemoConflictRequest → Claims → MemoryStore → MemoryStore × Result (List Order)
unfolding demo_request create_conflict_orders demo_line_id
create_demo_conflict_orders env req claims s = elim (demo_request env req claims s) [
  | err e ↦ (s, err e)
  | ok (count, due_date) ↦
      create_conflict_orders env (demo_line_id req claims) due_date claims.subject 1 count s
]
