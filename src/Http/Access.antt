-- ===== src/Http/Access.antt =====
-- Who may change the store, by the routes of internal/api/server.go: a table of the requests that do,
-- and the handlers of the remaining ones.
use woms.Base.{
  ◌≡◌, sym, ◌&&◌, ◌||◌, Bool, true, false, List, [], ◌∷◌, All, String, str_eq, eq_iff, any_of,
  arith,
}
use woms.Domain.{Role, is_admin, is_sales, is_scheduler}
use woms.Http.Server.{HttpRequest}
use woms.Http.Routes.{path_matches}

-- A request that changes the store, and the roles it takes.
pub record Grant : Type 0 where
  pub method : String
  pub path : String
  pub prefix : String
  pub roles : Role → Bool

abbrev pub anyone : Role → Bool
anyone role = true

abbrev pub admin_or_scheduler : Role → Bool
admin_or_scheduler role = is_admin role || is_scheduler role

abbrev pub on : String → String → (Role → Bool) → Grant
on method path roles = record { method = method; path = path; prefix = ""; roles = roles }

abbrev pub under : String → String → (Role → Bool) → Grant
under method prefix roles = record { method = method; path = ""; prefix = prefix; roles = roles }

abbrev pub grants : List Grant
grants =
    on "POST" "/api/orders" is_sales
    ∷ on "DELETE" "/api/orders" anyone
    ∷ on "POST" "/api/orders/preview-confirm" is_sales
    ∷ on "POST" "/api/orders/reject" is_scheduler
    ∷ on "POST" "/api/orders/resubmit" is_sales
    ∷ under "PATCH" "/api/orders/" anyone
    ∷ on "PATCH" "/api/users/password" is_admin
    ∷ under "DELETE" "/api/users/" is_admin
    ∷ on "POST" "/api/users" is_admin
    ∷ on "PATCH" "/api/users" is_admin
    ∷ on "POST" "/api/demo/conflict-orders" admin_or_scheduler
    ∷ on "DELETE" "/api/demo/hpa-peak" is_admin
    ∷ on "POST" "/api/schedules/preview" anyone
    ∷ on "POST" "/api/schedules/jobs" is_scheduler
    ∷ on "POST" "/api/production/confirm" is_scheduler
    ∷ on "POST" "/api/production/start" is_scheduler
    ∷ []

abbrev pub granted : Role → HttpRequest → Grant → Bool
granted role r grant =
    str_eq r.method grant.method && path_matches grant.path grant.prefix r.path && grant.roles role

-- Whether a request may change the store if its claims have the role.
unfoldable pub may_change : Role → HttpRequest → Bool
unfolding any_of path_matches
may_change role r = any_of (granted role r) grants

or-false : (a b : Bool) → a || b ≡ false → (a ≡ false) × (b ≡ false)
or-false a b h = ground arith

any_of-false :
    (p : Grant → Bool) (xs : List Grant) → any_of p xs ≡ false → All (λ g. p g ≡ false) xs
unfolding any_of
any_of-false p [] h = tt
any_of-false p (x ∷ xs) h =
    let (here, later) = or-false (p x) (any_of p xs) h in (here, any_of-false p xs later)

pub refused_rows :
    (role : Role) (r : HttpRequest)
    → may_change role r ≡ false
    → All (λ g. granted role r g ≡ false) grants
unfolding may_change
refused_rows role r h = any_of-false (granted role r) grants h

pub str_eq-swap : (a b : String) → str_eq a b ≡ true → str_eq b a ≡ true
str_eq-swap a b h = (eq_iff b a).1 (sym ((eq_iff a b).0 h))

-- A matching row that is not granted has another method or refuses the role.
pub and-refused : (m p a : Bool) → m && p && a ≡ false → p ≡ true → m && a ≡ false
and-refused m p a h k = ground arith

pub and-true : (m a : Bool) → m && a ≡ false → m ≡ true → a ≡ false
and-true m a h k = ground arith
