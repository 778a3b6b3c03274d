-- ===== src/Tests/Runs.antt =====
-- The theorems on the operations of internal/api/server.go, at the store of Tests/Stores.
use woms.Base.{
  sym, ap, ◌∙◌, str_eq, inl, inr, false, Bool-cases, ◌+◌, ◌≡◌, refl, ◌⊎◌, true, false, [], ◌∷◌,
  none, some, String, eq_iff, arith,
}
use woms.Base.Int.{pos}
use woms.Base.Maps.{lookup, has}
use woms.Base.Results.{ok}
use woms.Base.Text.{trim_space}
use woms.Api.References.{audited}
use woms.Domain.{AuditEntry, User, Order, ScheduleJob, OrderStatus, low, sales, zero_order}
use woms.Api.Requests.{
  CreateOrderRequest, CreateUserRequest, ProductionConfirmRequest, ProductionConfirmResponse,
}
use woms.Api.State.{MemoryStore, order_id_from_sequence}
use woms.Api.Orders.{create_order_locked}
use woms.Api.Users.{authenticate, create_user, delete_user}
use woms.Api.Production.{confirm_production_order, remainder_id}
use woms.Api.Jobs.{execute_schedule_job, started_job}
use woms.Api.Splits.{split_start, split_id, taken}
use woms.Api.JobOutcome.{IsFailure, IsCompletion, running_store}
use woms.Api.JobOutcome
use woms.Api.Creating.{IsAdmitted}
use woms.Api.Creating
use woms.Api.Confirming
use woms.Api.Accounts
use woms.Api.Freshness
use woms.Api.Lifecycle.{IsKeyed, Evolution}
use woms.Api.Evolution.Every
use woms.Api.Evolution.Every.{none≢some, some-injective}
use woms.Api.HpaDemo.{is_hpa_demo_line}
use woms.Api.HpaSummary.{create_hpa_peak_demo, clear_hpa_peak_demo}
use woms.Api.HpaRestore.{IsPlain}
use woms.Api.HpaRestore
use woms.Base.Text.{strip_prefix}
use woms.Api.Operations.{Operation, create_hpa_peak, clear_hpa_peak, run_any}
use woms.Tests.Stores.{
  today, env, store, pending_order, running_order, done_order, job_request, queued_job, ada,
  planner, store-IsKeyed,
}
use Prim.Native.String

abbrev cancellation : Operation
cancellation = Operation.cancel (record { order_ids = "ORD-0000001" ∷ "ORD-0000003" ∷ [] }) ada

run_any-IsKeyed_example : IsKeyed ((run_any env (create_hpa_peak planner) store).orders)
run_any-IsKeyed_example = Every.run_any-IsKeyed env (create_hpa_peak planner) store store-IsKeyed tt

run_any-final_example :
    (p : Order) × (lookup "ORD-0000003" ((run_any env (clear_hpa_peak planner) store).orders)
      ≡ some p)
    × (p.status ≡ OrderStatus.completed)
unfolding lookup is_hpa_demo_line
run_any-final_example =
    Every.run_any-final env (clear_hpa_peak planner) store "ORD-0000003" done_order store-IsKeyed tt
      refl refl refl

apart :
    (name id suffix : String)
    → strip_prefix "HPA-" name ≡ none
    → strip_prefix "HPA-" id ≡ some suffix
    → str_eq name id ≡ false
apart name id suffix outside inside = elim (Bool-cases (str_eq name id)) [
  | inr other ↦ other
  | inl same ↦
      absurd (none≢some (sym outside ∙ ap (strip_prefix "HPA-") ((eq_iff name id).0 same) ∙ inside))
]

store-line : (id : String) (o : Order) → lookup id (store.orders) ≡ some o → o.line_id ≡ "A"
unfolding lookup
store-line id o h = ground (arith, h)

store-IsPlain : IsPlain store
unfolding lookup strip_prefix is_hpa_demo_line
store-IsPlain = record {
  lines = λ id o h. ap is_hpa_demo_line (store-line id o h);
  ids = λ id suffix h.
      rw
        (
          apart "ORD-0000001" id suffix refl h,
          apart "ORD-0000002" id suffix refl h,
          apart "ORD-0000003" id suffix refl h,
        )
        refl;
}

create-clear_hpa_peak_demo_example :
    lookup "ORD-0000001"
      (clear_hpa_peak_demo env planner (create_hpa_peak_demo env planner store).0).0.orders
    ≡ lookup "ORD-0000001" (store.orders)
create-clear_hpa_peak_demo_example =
    HpaRestore.create-clear_hpa_peak_demo env planner planner store "ORD-0000001" store-IsPlain

execute_schedule_job-Ended_example :
    (t : MemoryStore) × (final : ScheduleJob) × (execute_schedule_job env "JOB-1" store
      ≡ ok (t, final))
    × (t.line_locks ≡ [])
    × (IsFailure store t final
        ⊎ IsCompletion env
            (started_job env queued_job)
            job_request
            (running_store env queued_job store)
            t
            final)
unfolding lookup
execute_schedule_job-Ended_example =
    JobOutcome.execute_schedule_job-Ended env "JOB-1" store queued_job job_request refl refl refl

abbrev confirmation : ProductionConfirmRequest
confirmation = record {
  order_id = "ORD-0000002";
  production_date = "2026-06-04";
  produced_quantity = pos 40;
}

abbrev confirmed : ProductionConfirmResponse
confirmed = record {
  order = record running_order {
    quantity = 40;
    status = OrderStatus.completed;
    updated_at = today + 5;
  };
  remainder = some (record running_order {
    id = "ORD-0000002-1";
    quantity = 20;
    status = OrderStatus.pending;
    source_order = "ORD-0000002";
    created_at = today + 5;
    updated_at = today + 5;
  });
}

abbrev after_confirmation : MemoryStore
after_confirmation = (confirm_production_order env confirmation planner store).0

abbrev new_request : CreateOrderRequest
new_request = record {
  customer = "Ada";
  line_id = "A";
  quantity = pos 25;
  priority = low;
  due_date = "2026-06-05";
  note = "";
}

abbrev created : Order
created = record zero_order {
  id = "ORD-0000004";
  customer = "Ada";
  line_id = "A";
  quantity = 25;
  priority = low;
  status = OrderStatus.pending;
  due_date = today + 86400000000000;
  created_by = "user-ada";
  created_at = today + 5;
  updated_at = today + 5;
}

create_order_locked-IsAdmitted_example :
    IsAdmitted env store (create_order_locked env new_request "user-ada" store).0 created
unfolding create_order_locked order_id_from_sequence
create_order_locked-IsAdmitted_example =
    Creating.create_order_locked-IsAdmitted env new_request "user-ada" store
      (create_order_locked env new_request "user-ada" store).0 created refl

delete_user-authenticate_example :
    authenticate env (trim_space " ada ") "pw" (delete_user env " ada " "user-root" store).0 ≡ none
delete_user-authenticate_example =
    Accounts.delete_user-authenticate env " ada " "user-root" "pw" store

abbrev ada_user : User
ada_user = record {
  id = "user-ada";
  username = "ada";
  password_hash = "bcrypt$h:pw";
  role = sales;
  line_id = "";
  disabled = false;
  deleted = false;
}

abbrev entry : AuditEntry
entry = record {
  id = "AUDIT-1";
  actor_id = "user-ada";
  action = "order.create";
  resource = "ORD-9";
  reason = "";
  created_at = 0;
}

-- An audit entry of the user is all that refers to them.
abbrev audited_store : MemoryStore
audited_store = record store { orders = []; audits = entry ∷ [] }

delete_user-referenced_example :
    lookup (trim_space "ada") ((delete_user env "ada" "user-root" audited_store).0.users)
    ≡ some (record ada_user { disabled = true; deleted = false })
unfolding trim_space lookup
delete_user-referenced_example =
    Accounts.delete_user-referenced env "ada" "user-root" ada_user audited_store refl
      (audited [] [] entry refl refl)

abbrev account : CreateUserRequest
account = record { username = "bo"; password = "secret"; role = sales; line_id = "" }

abbrev bo : User
bo = record {
  id = "user-bo";
  username = "bo";
  password_hash = "bcrypt$h:secret";
  role = sales;
  line_id = "";
  disabled = false;
  deleted = false;
}

verifies :
    (password hash : String)
    → env.crypto.bcrypt_hash password ≡ ok hash
    → env.crypto.bcrypt_matches hash password ≡ true
verifies password hash h = ground (arith, h, eq_iff hash (String.◌++◌ "h:" password))

create_user-authenticate_example :
    authenticate env (trim_space "bo") "secret" (create_user env account "user-root" store).0
    ≡ some bo
unfolding create_user
create_user-authenticate_example =
    Accounts.create_user-authenticate env account "user-root" store
      (create_user env account "user-root" store).0 bo verifies refl

remainder_id-IsFresh_example :
    (id : String) × (remainder_id running_order store ≡ some id) × (has id (store.orders) ≡ false)
remainder_id-IsFresh_example = Freshness.remainder_id-IsFresh running_order store

split_id-IsFresh_example :
    (id : String) × (split_id store split_start pending_order "ORD-0000001" ≡ some id)
    × (taken store split_start id ≡ false)
split_id-IsFresh_example = Freshness.split_id-IsFresh store split_start pending_order "ORD-0000001"
