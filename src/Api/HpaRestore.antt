-- ===== src/Api/HpaRestore.antt =====
-- The demonstration of internal/api/server.go, made and cleared.
use Prim.Native.String
use woms.Base.{
  ℕ, zero, suc, ◌≡◌, ◌⊎◌, refl, ap, subst, ◌∙◌, inl, inr, Bool, true, false, ◌&&◌, List, [], ◌∷◌,
  Option, none, some, String, str_eq, eq_iff, arith, Bool-cases,
}
use woms.Base.Maps.{Map, lookup, insert, lookup-insert}
use woms.Base.Text.{strip_prefix, itoa_padded}
use woms.Clock.{Time}
use woms.Domain.{Order}
use woms.Api.Requests.{Claims}
use woms.Api.State.{Env, MemoryStore, audit_locked}
use woms.Api.HpaDemo.{
  is_hpa_demo_line, hpa_demo_line_id, hpa_demo_id, hpa_demo_order, create_hpa_demo_line_locked,
  create_hpa_demo_orders_locked, create_hpa_demo_jobs_locked, create_hpa_demo_lines,
  reset_hpa_peak_demo_locked, clear_hpa_peak_demo_locked,
}
use woms.Api.HpaSummary.{create_hpa_peak_demo, clear_hpa_peak_demo}
use woms.Api.HpaClear.{on_demo_line, spared, lookup-clear}
use text.Mathlib.TextLemmas.{nil-append, cons-append}

strip_prefix-append : (p s : String) → strip_prefix p (String.◌++◌ p s) ≡ some s
unfolding strip_prefix
strip_prefix-append String.[] s = ap some (nil-append s)
strip_prefix-append (String.◌∷◌ c p) s =
    rw (cons-append c p s) (ground (arith, strip_prefix-append p s))

-- A demonstration's order stands under the ID, on one of its lines.
pub record IsAdded (id : String) (m : Map Order) : Type 0 where
  pub order : Order
  pub found : lookup id m ≡ some order
  pub named : order.id ≡ id
  pub line : is_hpa_demo_line order.line_id ≡ true
  pub suffix : String
  pub prefixed : strip_prefix "HPA-" id ≡ some suffix

-- Every ID has what it had, or an order of the demonstration.
pub record Extends (m n : Map Order) : Type 0 where
  pub at : (id : String) → (lookup id n ≡ lookup id m) ⊎ IsAdded id n

Extends-refl : (m : Map Order) → Extends m m
Extends-refl m = record { at = λ id. inl refl }

Extends-trans : {a b c : Map Order} → Extends a b → Extends b c → Extends a c
Extends-trans {a} {b} {c} e f = record {
  at = λ id. elim (f.at id) [
    | inr added ↦ inr added
    | inl same ↦ elim (e.at id) [
      | inl before ↦ inl (same ∙ before)
      | inr added ↦ inr (record {
        order = added.order;
        found = same ∙ added.found;
        named = added.named;
        line = added.line;
        suffix = added.suffix;
        prefixed = added.prefixed;
      })
    ]
  ];
}

suffix_of : String → ℕ → String
suffix_of line_id index = String.◌++◌ line_id (String.◌++◌ "-" (itoa_padded 3 index))

prefixed_id :
    (line_id : String) (index : ℕ)
    → strip_prefix "HPA-" (hpa_demo_id "HPA-" line_id index) ≡ some (suffix_of line_id index)
unfolding hpa_demo_id suffix_of
prefixed_id line_id index = strip_prefix-append "HPA-" (suffix_of line_id index)

insert-Extends :
    (now : Time) (actor line_id : String) (index : ℕ) (m : Map Order)
    → is_hpa_demo_line line_id ≡ true
    → let id = hpa_demo_id "HPA-" line_id index in
      Extends m (insert id (hpa_demo_order now actor line_id id) m)
unfolding hpa_demo_order
insert-Extends now actor line_id index m demo =
    let written : String = hpa_demo_id "HPA-" line_id index in
    record {
      at = λ id. elim (Bool-cases (str_eq written id)) [
        | inl same ↦ inr (record {
          order = hpa_demo_order now actor line_id written;
          found =
              ground (arith, lookup-insert written id (hpa_demo_order now actor line_id written) m);
          named = (eq_iff written id).0 same;
          line = demo;
          suffix = suffix_of line_id index;
          prefixed =
              subst (λ i. strip_prefix "HPA-" i ≡ some (suffix_of line_id index))
                ((eq_iff written id).0 same) (prefixed_id line_id index);
        })
        | inr other ↦
            inl (
              ground (arith, lookup-insert written id (hpa_demo_order now actor line_id written) m))
      ];
    }

create_hpa_demo_orders-Extends :
    (now : Time) (actor line_id : String) (index left : ℕ) (s : MemoryStore)
    → is_hpa_demo_line line_id ≡ true
    → Extends s.orders (create_hpa_demo_orders_locked now actor line_id index left s).0.orders
unfolding create_hpa_demo_orders_locked
create_hpa_demo_orders-Extends now actor line_id index zero s demo = Extends-refl s.orders
create_hpa_demo_orders-Extends now actor line_id index (suc left) s demo =
    Extends-trans (insert-Extends now actor line_id index s.orders demo)
      (create_hpa_demo_orders-Extends now actor line_id (suc index) left _ demo)

create_hpa_demo_jobs-orders :
    (env : Env) (actor line_id : String) (index left : ℕ) (ids : List String) (s : MemoryStore)
    → (create_hpa_demo_jobs_locked env actor line_id index left ids s).orders ≡ s.orders
unfolding create_hpa_demo_jobs_locked audit_locked
create_hpa_demo_jobs-orders env actor line_id index zero ids s = refl
create_hpa_demo_jobs-orders env actor line_id index (suc left) [] s = refl
create_hpa_demo_jobs-orders env actor line_id index (suc left) (id ∷ ids) s =
    create_hpa_demo_jobs-orders env actor line_id (suc index) left ids _

-- The lines of so many indices are lines of the demonstration.
all_demo : ℕ → ℕ → Bool
all_demo index zero = true
all_demo index (suc left) = is_hpa_demo_line (hpa_demo_line_id index) && all_demo (suc index) left

and-both : (a b : Bool) → a && b ≡ true → (a ≡ true) × (b ≡ true)
and-both a b h = ground (arith, h)

create_hpa_demo_lines-Extends :
    (env : Env) (actor : String) (index left : ℕ) (s : MemoryStore)
    → all_demo index left ≡ true
    → Extends s.orders (create_hpa_demo_lines env actor index left s).orders
unfolding create_hpa_demo_lines create_hpa_demo_line_locked all_demo
create_hpa_demo_lines-Extends env actor index zero s demo = Extends-refl s.orders
create_hpa_demo_lines-Extends env actor index (suc left) s demo =
    let (here, later) = and-both _ _ demo in
    let line_id : String = hpa_demo_line_id index in
    let out =
      create_hpa_demo_orders_locked env.now actor line_id 1 5
        (create_hpa_demo_line_locked line_id s) in
    Extends-trans
      (create_hpa_demo_orders-Extends env.now actor line_id 1 5
        (create_hpa_demo_line_locked line_id s) here)
      (subst
        (λ m.
          Extends m
            (create_hpa_demo_lines env actor (suc index) left
              (create_hpa_demo_jobs_locked env actor line_id 1 2 out.1 out.0)).orders)
        (create_hpa_demo_jobs-orders env actor line_id 1 2 out.1 out.0)
        (create_hpa_demo_lines-Extends env actor (suc index) left
          (create_hpa_demo_jobs_locked env actor line_id 1 2 out.1 out.0) later))

two_hundred : all_demo 1 200 ≡ true
unfolding all_demo is_hpa_demo_line hpa_demo_line_id
two_hundred = refl

-- What the creation leaves: what the clearing left, or an order of the demonstration.
pub create-Extends :
    (env : Env) (claims : Claims) (s : MemoryStore)
    → Extends
        (clear_hpa_peak_demo_locked env claims.subject s).orders
        (create_hpa_peak_demo env claims s).0.orders
unfolding create_hpa_peak_demo reset_hpa_peak_demo_locked
create-Extends env claims s =
    create_hpa_demo_lines-Extends env claims.subject 1 200
      (reset_hpa_peak_demo_locked env claims.subject s) two_hundred

-- No order of the store is on a line of the demonstration or under an ID of its orders.
pub record IsPlain (s : MemoryStore) : Type 0 where
  pub lines :
      (id : String) (o : Order) → lookup id s.orders ≡ some o → is_hpa_demo_line o.line_id ≡ false
  pub ids : (id suffix : String) → strip_prefix "HPA-" id ≡ some suffix → lookup id s.orders ≡ none

spared-plain :
    (s : MemoryStore) (id : String) (o : Option Order)
    → IsPlain s
    → lookup id s.orders ≡ o
    → spared (on_demo_line id) o ≡ o
spared-plain s id none plain h = refl
spared-plain s id (some o) plain h = rw (plain.lines id o h) refl

-- A demonstration that is made and cleared leaves the orders of a store that had none as they were:
-- every ID has the order it had, and none of the thousand orders of the demonstration is left.
pub create-clear_hpa_peak_demo :
    (env : Env) (claims other : Claims) (s : MemoryStore) (id : String)
    → IsPlain s
    → lookup id (clear_hpa_peak_demo env other (create_hpa_peak_demo env claims s).0).0.orders
      ≡ lookup id s.orders
unfolding clear_hpa_peak_demo
create-clear_hpa_peak_demo env claims other s id plain =
    let made : MemoryStore = (create_hpa_peak_demo env claims s).0 in
    let cleared : lookup id (clear_hpa_peak_demo_locked env claims.subject s).orders
        ≡ lookup id s.orders =
      lookup-clear env claims.subject id s ∙ spared-plain s id (lookup id s.orders) plain refl in
    lookup-clear env other.subject id made ∙ elim ((create-Extends env claims s).at id) [
      | inl same ↦
          ap (spared (on_demo_line id)) (same ∙ cleared)
          ∙ spared-plain s id (lookup id s.orders) plain refl
      | inr added ↦ rw (added.found, added.line, plain.ids id added.suffix added.prefixed) refl
    ]
