-- ===== src/Http/Admission.antt =====
-- The routes of internal/api/server.go against the table of Http/Access.
use woms.Base.{
  ◌≡◌, refl, ◌∙◌, ◌&&◌, not, false, List, [], ◌∷◌, All, some, str_eq, Bool-cases, inl, inr,
}
use woms.Base.Results.{Result, ok, err, ok-injective}
use woms.Api.Requests.{Claims}
use woms.Http.Server.{HttpRequest, Server, World, claims_from_request}
use woms.Http.Routes.{
  ServerRoute, matches, routes, route_handler, handled, admitted, serve_http, is_public_api_path,
  has_prefix,
}
use woms.Http.Access.{may_change}
use woms.Http.Guards.{claims_from_request-Kept}
use woms.Http.RouteGuards.{IsRefused, Guarded}
use woms.Http.OrderRoutes.{
  healthz-Guarded, readyz-Guarded, login-Guarded, logout-Guarded, identity-Guarded, orders-Guarded,
  lines-Guarded, preview_order-Guarded, reject-Guarded, resubmit-Guarded, update-Guarded,
  password-Guarded, user-Guarded, users-Guarded,
}
use woms.Http.ScheduleRoutes.{
  conflicts-Guarded, hpa-Guarded, preview-Guarded, calendar-Guarded, history-Guarded, jobs-Guarded,
  job-Guarded, confirm-Guarded, start-Guarded,
}

module _ {ℓ} {R S : Type ℓ} (srv : Server R S) where
  routes-Guarded : All (Guarded srv) (routes srv)
  unfolding routes
  routes-Guarded = (
    healthz-Guarded srv,
    (
      readyz-Guarded srv,
      (
        login-Guarded srv,
        (
          logout-Guarded srv,
          (
            identity-Guarded srv,
            (
              orders-Guarded srv,
              (
                lines-Guarded srv,
                (
                  preview_order-Guarded srv,
                  (
                    reject-Guarded srv,
                    (
                      resubmit-Guarded srv,
                      (
                        update-Guarded srv,
                        (
                          password-Guarded srv,
                          (
                            user-Guarded srv,
                            (
                              users-Guarded srv,
                              (
                                conflicts-Guarded srv,
                                (
                                  hpa-Guarded srv,
                                  (
                                    preview-Guarded srv,
                                    (
                                      calendar-Guarded srv,
                                      (
                                        history-Guarded srv,
                                        (
                                          jobs-Guarded srv,
                                          (
                                            job-Guarded srv,
                                            (confirm-Guarded srv, (start-Guarded srv, tt)),
                                          ),
                                        ),
                                      ),
                                    ),
                                  ),
                                ),
                              ),
                            ),
                          ),
                        ),
                      ),
                    ),
                  ),
                ),
              ),
            ),
          ),
        ),
      ),
    ),
  )

  -- The claims that a request carries in its context are those of the request.
  context-IsRefused :
      (r : HttpRequest) (w : World R S) (c : Claims)
      → may_change c.role r ≡ false
      → IsRefused srv (record r { context = some c }) w
  unfolding claims_from_request may_change
  context-IsRefused r w c h d same = rw (← ok-injective same) h

  handled-Kept :
      (table : List (ServerRoute R S)) (r : HttpRequest) (w : World R S)
      → All (Guarded srv) table
      → IsRefused srv r w
      → (handled srv (route_handler srv table r) r w).0.store ≡ w.store
  unfolding route_handler
  handled-Kept [] r w all refused = refl
  handled-Kept (route ∷ rest) r w all refused = elim (Bool-cases (matches route r)) [
    | inl found ↦ rw (found) (all.0.kept r w found refused)
    | inr other ↦ rw (other) (handled-Kept rest r w all.1 refused)
  ]

  admitted-Kept :
      (r : HttpRequest) (w : World R S) (out : World R S × Result Claims)
      → out.0.store ≡ w.store
      → ((c : Claims) → out.1 ≡ ok c → may_change c.role r ≡ false)
      → (admitted srv r out).0.store ≡ w.store
  unfolding may_change
  admitted-Kept r w (v, err e) same refused = same
  admitted-Kept r w (v, ok c) same refused =
      handled-Kept (routes srv) (record r { context = some c }) v routes-Guarded
        (context-IsRefused r v c (refused c refl))
      ∙ same

  -- A request leaves the store as it is, unless the table lists its method and path and its claims, if
  -- it has valid ones, have a role that the table lists for them.
  pub serve_http-keeps :
      (r : HttpRequest) (w : World R S) → IsRefused srv r w → (serve_http srv r w).0.store ≡ w.store
  unfolding serve_http
  serve_http-keeps r w refused = elim (Bool-cases (str_eq r.method "OPTIONS")) [
    | inl options ↦ rw (serve_http, options) refl
    | inr other ↦ elim (Bool-cases (str_eq r.method "GET" && str_eq r.path "/metrics")) [
      | inl metrics ↦ rw (serve_http, other, metrics) refl
      | inr plain ↦ elim (Bool-cases (has_prefix "/api/" r.path && not (is_public_api_path r))) [
        | inl guarded ↦
            rw (serve_http, other, plain, guarded)
              (admitted-Kept r w (claims_from_request srv r w) (claims_from_request-Kept srv r w)
                refused)
        | inr open_path ↦
            rw (serve_http, other, plain, open_path)
              (handled-Kept (routes srv) r w routes-Guarded refused)
      ]
    ]
  ]
