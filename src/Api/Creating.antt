-- ===== src/Api/Creating.antt =====
-- What `CreateOrder` of internal/api/server.go stores.
use woms.Base.{
  ◌≤◌, ◌<◌, ◌≡◌, refl, ap, subst, ◌∙◌, inl, inr, true, false, some, String, str_eq, eq_iff, arith,
  Option-cases, Bool-cases, ltb→lt,
}
use woms.Base.Int.{ℤ, pos, negsuc}
use woms.Base.Maps.{lookup, has, lookup-insert}
use woms.Base.Results.{ok, err, Result-cases}
use woms.Base.Text.{trim_space}
use woms.Clock.{Time, after, effective_current_date, parse_date}
use woms.Domain.{Order, OrderStatus}
use woms.Api.Requests.{CreateOrderRequest}
use woms.Api.State.{Env, MemoryStore, current_date_for_line_locked, order_id_from_sequence}
use woms.Api.Validation.{
  validate_order_request, validate_order_fields, validate_future_due_date, stored_quantity,
  out_of_range,
}
use woms.Api.Orders.{created_due_date, create_order_locked}
use woms.Api.Evolution.Cancel.{
  created_order, created_store, created_store-orders, create_order_locked-err,
  create_order_locked-ok,
}

-- A stored pending order of a line that exists, with a quantity in range and a due date after the
-- line's current date.
pub record IsAdmitted (env : Env) (s t : MemoryStore) (o : Order) : Type 0 where
  pub stored : lookup o.id t.orders ≡ some o
  pub status : o.status ≡ OrderStatus.pending
  pub line : has o.line_id s.lines ≡ true
  pub least : 25 ≤ o.quantity
  pub most : o.quantity ≤ 2500
  pub customer : str_eq (trim_space o.customer) "" ≡ false
  pub today : Time
  pub dated : current_date_for_line_locked env o.line_id s ≡ ok today
  pub due : effective_current_date env.now today < o.due_date

-- What the checks give of a due date that they return.
record IsChecked (env : Env) (req : CreateOrderRequest) (s : MemoryStore) (due : Time)
    : Type 0 where
  line : has req.line_id s.lines ≡ true
  least : 25 ≤ stored_quantity req.quantity
  most : stored_quantity req.quantity ≤ 2500
  customer : str_eq (trim_space req.customer) "" ≡ false
  today : Time
  dated : current_date_for_line_locked env req.line_id s ≡ ok today
  later : effective_current_date env.now today < due

in_range : (q : ℤ) → out_of_range q ≡ false → (25 ≤ stored_quantity q) × (stored_quantity q ≤ 2500)
in_range (pos n) h = (ground (arith, h), ground (arith, h))
in_range (negsuc n) h = cc h

future :
    (now today due : Time) (value : String)
    → validate_future_due_date now value today ≡ ok due
    → effective_current_date now today < due
unfolding validate_future_due_date
future now today due value h = elim (Option-cases (parse_date value)) [
  | inl bad ↦
      let refused : validate_future_due_date now value today ≡ err "dueDate must use YYYY-MM-DD" =
        rw (validate_future_due_date, bad) refl in
      cc (h, refused)
  | inr (d, parsed) ↦ elim (Bool-cases (after d (effective_current_date now today))) [
    | inl later ↦
        let accepted : validate_future_due_date now value today ≡ ok d =
          rw (validate_future_due_date, parsed, later) refl in
        let same : d ≡ due = cc (h, accepted) in
        subst (λ x. effective_current_date now today < x) same
          (ltb→lt (effective_current_date now today) d later)
    | inr early ↦
        let refused : validate_future_due_date now value today ≡ err "無法被接受的交期" =
          rw (validate_future_due_date, parsed, early) refl in
        cc (h, refused)
  ]
]

created_due_date-IsChecked :
    (env : Env) (req : CreateOrderRequest) (s : MemoryStore) (due : Time)
    → created_due_date env req s ≡ ok due
    → IsChecked env req s due
unfolding created_due_date validate_order_request validate_order_fields
created_due_date-IsChecked env req s due h =
    elim (Result-cases (current_date_for_line_locked env req.line_id s)) [
      | inr (e, refused) ↦ ground (arith, refused, h)
      | inl (today, dated) ↦ elim (Bool-cases (out_of_range req.quantity)) [
        | inl bad ↦ ground (arith, dated, bad, h)
        | inr good ↦ record {
          line = ground (arith, dated, good, h);
          least = (in_range req.quantity good).0;
          most = (in_range req.quantity good).1;
          customer = ground (arith, dated, good, h);
          today = today;
          dated = dated;
          later = future env.now today due req.due_date (ground (arith, dated, good, h));
        }
      ]
    ]

-- An order that `CreateOrder` returns is stored under its ID, pending, for a line that exists, with a
-- customer that is not blank, a quantity from 25 to 2500 and a due date after the line's current date.
pub create_order_locked-IsAdmitted :
    (env : Env) (req : CreateOrderRequest) (actor : String) (s t : MemoryStore) (o : Order)
    → create_order_locked env req actor s ≡ (t, ok o)
    → IsAdmitted env s t o
create_order_locked-IsAdmitted env req actor s t o h =
    elim (Result-cases (created_due_date env req s)) [
      | inr (e, refused) ↦ ground (arith, create_order_locked-err env req actor s e refused, h)
      | inl (due, valid) ↦
          let made = create_order_locked-ok env req actor s due valid in
          let c = created_due_date-IsChecked env req s due valid in
          let same : created_order env req actor due s ≡ o = ground (arith, made, h) in
          let store : created_store env req actor due s ≡ t = ground (arith, made, h) in
          subst (λ (x : MemoryStore). IsAdmitted env s x o) store
            (subst (λ (y : Order). IsAdmitted env s (created_store env req actor due s) y) same
              (record {
                stored =
                    ap (λ m. lookup (order_id_from_sequence s.next_order_id) m)
                      (created_store-orders env req actor due s)
                    ∙ lookup-insert (order_id_from_sequence s.next_order_id)
                        (order_id_from_sequence s.next_order_id) (created_order env req actor due s)
                        s.orders
                    ∙ ground (
                      arith,
                      eq_iff (order_id_from_sequence s.next_order_id)
                          (order_id_from_sequence s.next_order_id),
                    );
                status = refl;
                line = c.line;
                least = c.least;
                most = c.most;
                customer = c.customer;
                today = c.today;
                dated = c.dated;
                due = c.later;
              }))
    ]
