-- ===== src/Http/Routes.antt =====
-- `ServeHTTP` and the routes of internal/api/server.go. The counters that it feeds for every request
-- are not part of the model.
use woms.Base.{
  ◌&&◌, not, Bool, false, List, [], ◌∷◌, Option, none, some, String, str_eq, if◌then◌else◌,
}
use woms.Base.Results.{Result, ok, err}
use woms.Base.Text.{strip_prefix}
use woms.Base.Maps.{is_some}
use woms.Api.Requests.{Claims}
use woms.Http.Server.{
  HttpRequest, HttpReply, Body, Server, World, Handler, write_json, write_error,
  claims_from_request, write_claims_error, claimed,
}
use woms.Http.Handlers.{
  healthz_handler, readyz_handler, method_not_allowed, handle_login, handle_logout,
  handle_ingress_auth, handle_orders, handle_lines, handle_confirm_preview_order,
  handle_reject_orders, handle_resubmit_order, handle_update_order, handle_users,
  handle_reset_user_password, handle_user_by_username,
}
use woms.Http.Scheduling.{
  demo_conflict_orders, handle_schedule_preview, handle_hpa_peak_demo, handle_schedule_calendar,
  handle_schedule_history, handle_schedule_jobs, handle_get_schedule_job, handle_production_confirm,
  handle_production_start,
}

-- An empty method stands for any; a route without a path has a prefix.
pub record ServerRoute {ℓ} (R S : Type ℓ) : Type ℓ where
  pub method : String
  pub path : String
  pub prefix : String
  pub handler : Handler R S

abbrev pub has_prefix : String → String → Bool
has_prefix prefix text = is_some (strip_prefix prefix text)

unfoldable pub path_matches : String → String → String → Bool
unfolding strip_prefix
path_matches path prefix requested =
    if not (str_eq path "") then str_eq path requested else has_prefix prefix requested

unfoldable pub matches {ℓ} : {R S : Type ℓ} → ServerRoute R S → HttpRequest → Bool
unfolding path_matches
matches route r =
    if not (str_eq route.method "") && not (str_eq route.method r.method)
    then false
    else path_matches route.path route.prefix r.path

unfoldable pub is_public_api_path : HttpRequest → Bool
is_public_api_path r = str_eq r.method "POST" && str_eq r.path "/api/auth/login"

-- `handleDemoConflictOrders` tests the method before the claims.
abbrev pub handle_demo_conflict_orders {ℓ} : {R S : Type ℓ} → Server R S → Handler R S
handle_demo_conflict_orders srv r w =
    if not (str_eq r.method "POST")
    then (w, method_not_allowed)
    else claimed (demo_conflict_orders srv) r (claims_from_request srv r w)

abbrev pub at {ℓ} : {R S : Type ℓ} → String → String → Handler R S → ServerRoute R S
at method path handler = record { method = method; path = path; prefix = ""; handler = handler }

abbrev pub below {ℓ} : {R S : Type ℓ} → String → String → Handler R S → ServerRoute R S
below method prefix handler = record {
  method = method;
  path = "";
  prefix = prefix;
  handler = handler;
}

module _ {ℓ} {R S : Type ℓ} (srv : Server R S) where
  abbrev pub with_claims : (Server R S → Claims → Handler R S) → Handler R S
  with_claims next r w = claimed (next srv) r (claims_from_request srv r w)

  unfoldable pub routes : List (ServerRoute R S)
  unfolding healthz_handler readyz_handler handle_login handle_logout handle_ingress_auth
      handle_orders handle_lines handle_confirm_preview_order handle_reject_orders
      handle_resubmit_order handle_update_order handle_users handle_reset_user_password
      handle_user_by_username demo_conflict_orders handle_schedule_preview handle_hpa_peak_demo
      handle_schedule_calendar handle_schedule_history handle_schedule_jobs handle_get_schedule_job
      handle_production_confirm handle_production_start claims_from_request
  routes =
      at "GET" "/healthz" healthz_handler
      ∷ at "GET" "/readyz" readyz_handler
      ∷ at "POST" "/api/auth/login" (handle_login srv)
      ∷ at "POST" "/api/auth/logout" (handle_logout srv)
      ∷ at "GET" "/internal/auth/verify" (with_claims handle_ingress_auth)
      ∷ at "" "/api/orders" (with_claims handle_orders)
      ∷ at "GET" "/api/lines" (with_claims handle_lines)
      ∷ at "POST" "/api/orders/preview-confirm" (with_claims handle_confirm_preview_order)
      ∷ at "POST" "/api/orders/reject" (with_claims handle_reject_orders)
      ∷ at "POST" "/api/orders/resubmit" (with_claims handle_resubmit_order)
      ∷ below "PATCH" "/api/orders/" (with_claims handle_update_order)
      ∷ at "PATCH" "/api/users/password" (with_claims handle_reset_user_password)
      ∷ below "" "/api/users/" (with_claims handle_user_by_username)
      ∷ at "" "/api/users" (with_claims handle_users)
      ∷ at "" "/api/demo/conflict-orders" (handle_demo_conflict_orders srv)
      ∷ at "" "/api/demo/hpa-peak" (with_claims handle_hpa_peak_demo)
      ∷ at "POST" "/api/schedules/preview" (with_claims handle_schedule_preview)
      ∷ at "GET" "/api/schedules/calendar" (with_claims handle_schedule_calendar)
      ∷ at "GET" "/api/schedules/history" (with_claims handle_schedule_history)
      ∷ at "" "/api/schedules/jobs" (with_claims handle_schedule_jobs)
      ∷ below "GET" "/api/schedules/jobs/" (with_claims handle_get_schedule_job)
      ∷ at "POST" "/api/production/confirm" (with_claims handle_production_confirm)
      ∷ at "POST" "/api/production/start" (with_claims handle_production_start)
      ∷ []

  -- The first route that matches.
  unfoldable pub route_handler : List (ServerRoute R S) → HttpRequest → Option (Handler R S)
  unfolding matches
  route_handler [] r = none
  route_handler (route ∷ rest) r =
      let later = route_handler rest r in if matches route r then some route.handler else later

  abbrev pub handled : Option (Handler R S) → Handler R S
  handled none r w = (w, write_error 404 "route not found")
  handled (some handler) r w = handler r w

  abbrev pub dispatch : Handler R S
  dispatch r w = handled (route_handler routes r) r w

  abbrev pub admitted : HttpRequest → World R S × Result Claims → World R S × HttpReply
  admitted r (w, err e) = (w, write_claims_error e)
  admitted r (w, ok claims) = dispatch (record r { context = some claims }) w

  unfoldable pub serve_http : Handler R S
  unfolding claims_from_request is_public_api_path routes route_handler write_claims_error
      strip_prefix
  serve_http r w =
      if str_eq r.method "OPTIONS"
      then (w, write_json 204 Body.empty_body)
      else if str_eq r.method "GET" && str_eq r.path "/metrics"
      then (w, write_json 200 Body.metrics_body)
      else if has_prefix "/api/" r.path && not (is_public_api_path r)
      then admitted r (claims_from_request srv r w)
      else dispatch r w
