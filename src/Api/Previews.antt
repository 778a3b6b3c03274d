-- ===== src/Api/Previews.antt =====
-- `ConfirmPreviewOrder` of internal/api/server.go and what it calls (two checks are in
-- internal/api/postgres_store.go): a sales preview becomes an order, and the pending orders that it
-- conflicts with may be deferred.
use woms.Base.{
  not, ◌&&◌, ◌||◌, List, [], ◌∷◌, ◌++◌, String, str_eq, contains, is_empty, if◌then◌else◌,
}
use woms.Base.Maps.{lookup, lookup_or, insert, delete}
use woms.Base.Results.{Result, ok, err, or_fail, refuse_if, ◌>>=◌, ◌>>◌}
use woms.Base.Text.{trim_space}
use woms.Domain.{Order, OrderStatus, status_eq, zero_order}
use woms.Scheduler.Types.{Conflict}
use woms.Api.Requests.{Claims, ConfirmPreviewRequest, PreviewRecord, CreateOrderRequest}
use woms.Api.State.{Env, MemoryStore, put_order, bump_line_revision_locked, audit_locked}
use woms.Api.Inputs.{preview_draft_order_id}
use woms.Api.Jobs.{owns_preview}
use woms.Api.Orders.{create_order_locked}
use Prim.Native.String

-- The preview and its draft order.
unfoldable pub load_preview_for_confirmation_locked :
    ConfirmPreviewRequest → Claims → MemoryStore → Result (PreviewRecord × CreateOrderRequest)
load_preview_for_confirmation_locked req claims s = do
  preview ← or_fail (lookup req.preview_id s.previews) "preview result expired or not found"
  refuse_if (not (owns_preview claims preview)) "preview result belongs to another user"
  draft ← or_fail preview.draft_order "preview does not contain a draft order"
  ok (preview, draft)

unfoldable pub validate_draft_defer_request :
    ConfirmPreviewRequest → PreviewRecord → Result (Unit {0})
validate_draft_defer_request req preview = do
  refuse_if (req.defer_draft && not (is_empty req.deferred_order_ids))
      "draft defer cannot include deferred pending orders"
  refuse_if (req.defer_draft && is_empty preview.conflicts)
      "draft can be deferred only when preview has conflicts"

-- The loop of `uniqueOrderIDs`.
unfoldable pub unique_loop : List String → List String → List String
unfolding contains trim_space
unique_loop seen [] = []
unique_loop seen (value ∷ values) =
    let id : String = trim_space value in
    let skipped : List String = unique_loop seen values in
    let taken : List String = unique_loop (id ∷ seen) values in
    if str_eq id "" || contains seen id then skipped else id ∷ taken

unfoldable pub unique_order_ids : List String → List String
unfolding unique_loop
unique_order_ids values = unique_loop [] values

-- The IDs that may be deferred, without the draft's.
unfoldable pub deferrable : List String → List String
deferrable [] = []
deferrable (id ∷ ids) =
    let later : List String = deferrable ids in
    if not (str_eq id "") && not (str_eq id preview_draft_order_id) then id ∷ later else later

unfoldable pub preview_deferred_order_ids : List Conflict → List String
unfolding deferrable
preview_deferred_order_ids [] = []
preview_deferred_order_ids (c ∷ rest) =
    deferrable (c.order_id ∷ c.affected_order_ids) ++ preview_deferred_order_ids rest

-- One order that is to be deferred.
unfoldable pub check_deferred : PreviewRecord → Claims → MemoryStore → String → Result (Unit {0})
unfolding preview_deferred_order_ids contains
check_deferred preview claims s id = do
  refuse_if (not (contains (preview_deferred_order_ids preview.conflicts) id))
      "deferred order must belong to preview conflicts"
  order ← or_fail (lookup id s.orders) (String.◌++◌ "order not found: " id)
  refuse_if (not (str_eq order.created_by claims.subject)) "sales can defer only their own orders"
  refuse_if (not (str_eq order.line_id preview.line_id))
      "deferred order line must match preview line"
  refuse_if (not (status_eq order.status OrderStatus.pending))
      "only pending preview conflicts can be deferred"

unfoldable pub check_all_deferred :
    PreviewRecord → Claims → MemoryStore → List String → Result (Unit {0})
unfolding check_deferred
check_all_deferred preview claims s [] = ok tt
check_all_deferred preview claims s (id ∷ ids) =
    check_deferred preview claims s id >> check_all_deferred preview claims s ids

unfoldable pub validate_sales_deferred_orders_locked :
    List String → PreviewRecord → Claims → MemoryStore → Result (List String)
unfolding unique_order_ids check_all_deferred
validate_sales_deferred_orders_locked order_ids preview claims s =
    let ids : List String = unique_order_ids order_ids in
    check_all_deferred preview claims s ids >> ok ids

unfoldable pub apply_deferred_draft_locked :
    Env → Order → Claims → MemoryStore → MemoryStore × Order
unfolding audit_locked
apply_deferred_draft_locked env order claims s =
    let deferred : Order = record order {
      status = OrderStatus.rejected;
      rejected_by = claims.subject;
      rejected_at = env.now;
      updated_at = env.now;
    } in
    (
      audit_locked env claims.subject "order.sales_conflict_defer_draft" order.id ""
          (put_order deferred s),
      deferred,
    )

abbrev pub sales_conflict_deferred_reason : String
sales_conflict_deferred_reason = "Sales 接單衝突處理：改由業務重新確認"

abbrev pub deferred_order : Env → Claims → Order → Order
deferred_order env claims order = record order {
  status = OrderStatus.rejected;
  rejection_reason = sales_conflict_deferred_reason;
  rejected_by = claims.subject;
  rejected_at = env.now;
  updated_at = env.now;
}

unfoldable pub defer_preview_conflict_orders_locked :
    Env → List String → Claims → MemoryStore → MemoryStore
unfolding audit_locked bump_line_revision_locked lookup_or
defer_preview_conflict_orders_locked env [] claims s = s
defer_preview_conflict_orders_locked env (id ∷ ids) claims s =
    let order : Order = lookup_or zero_order id s.orders in
    defer_preview_conflict_orders_locked env ids claims (
      audit_locked env claims.subject "order.sales_conflict_defer" id sales_conflict_deferred_reason
        (bump_line_revision_locked order.line_id
          (record s { orders = insert id (deferred_order env claims order) s.orders })))

-- What `ConfirmPreviewOrder` checks before it creates the order: the draft and the deferred IDs.
unfoldable pub confirmable :
    ConfirmPreviewRequest → Claims → MemoryStore → Result (CreateOrderRequest × List String)
unfolding load_preview_for_confirmation_locked validate_draft_defer_request
    validate_sales_deferred_orders_locked
confirmable req claims s = do
  (preview, draft) ← load_preview_for_confirmation_locked req claims s
  validate_draft_defer_request req preview
  deferred ← validate_sales_deferred_orders_locked req.deferred_order_ids preview claims s
  ok (draft, deferred)

-- The writes behind the created order.
unfoldable pub settle_preview :
    Env → ConfirmPreviewRequest → Claims → List String → Order → MemoryStore → MemoryStore × Order
unfolding apply_deferred_draft_locked defer_preview_conflict_orders_locked delete
settle_preview env req claims deferred order s =
    let (drafted, final) =
      if req.defer_draft then apply_deferred_draft_locked env order claims s else (s, order) in
    let after : MemoryStore = defer_preview_conflict_orders_locked env deferred claims drafted in
    (record after { previews = delete req.preview_id after.previews }, final)

unfoldable pub confirm_preview_order :
    Env → ConfirmPreviewRequest → Claims → MemoryStore → MemoryStore × Result Order
unfolding confirmable create_order_locked settle_preview
confirm_preview_order env req claims s = elim (confirmable req claims s) [
  | err e ↦ (s, err e)
  | ok (draft, deferred) ↦
      let (created, outcome) = create_order_locked env draft claims.subject s in
      elim outcome [
        | err e ↦ (created, err e)
        | ok order ↦
            let (after, final) = settle_preview env req claims deferred order created in
            (after, ok final)
      ]
]
