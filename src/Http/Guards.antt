-- ===== src/Http/Guards.antt =====
-- What the handlers of internal/api/server.go leave alone when they refuse a request or only read.
use woms.Base.{
  ℕ, ◌*◌, ◌∙◌, ◌≡◌, refl, ◌&&◌, not, true, false, Option, none, some, String, str_eq, Bool-cases,
  inl, inr, arith,
}
use woms.Base.Results.{Result, ok, err}
use woms.Domain.{User, is_admin, is_sales, is_scheduler}
use woms.Api.Requests.{Claims}
use woms.Auth.Token.{verify_token, create_token, bearer_token}
use woms.Http.Server.{
  HttpRequest, HttpReply, Body, Server, World, Handler, claims_from_request, claimed, decoded,
  shown, claims_or, token_of, session_of, verified,
}
use woms.Http.Handlers.{
  handle_login, handle_orders, handle_users, handle_user_by_username, log_in, check_token,
  keep_session, logged_in, claims_of,
}
use woms.Http.Scheduling.{handle_hpa_peak_demo, handle_schedule_jobs, demo_conflict_orders}
use woms.Http.Access.{admin_or_scheduler}

module _ {ℓ} {R S : Type ℓ} (srv : Server R S) where
  abbrev Kept : World R S → World R S × HttpReply → Type ℓ
  Kept w out = out.0.store ≡ w.store

  -- The claims are read without a change to the store.
  verified-Kept :
      (w : World R S) (c : Claims) (out : S × Result (Unit {0}))
      → (verified w c out).0.store ≡ w.store
  verified-Kept w c (s, ok live) = refl
  verified-Kept w c (s, err e) = refl

  session_of-Kept :
      (w : World R S) (token : String) (out : Result Claims)
      → (session_of srv w token out).0.store ≡ w.store
  session_of-Kept w token (err e) = refl
  session_of-Kept w token (ok c) = verified-Kept w c (srv.token_sessions.verify token c w.sessions)

  token_of-Kept : (w : World R S) (out : Result String) → (token_of srv w out).0.store ≡ w.store
  token_of-Kept w (err e) = refl
  token_of-Kept w (ok token) = session_of-Kept w token (verify_token srv.codec srv.jwt_secret token)

  claims_or-Kept :
      (r : HttpRequest) (w : World R S) (out : Option Claims)
      → (claims_or srv r w out).0.store ≡ w.store
  claims_or-Kept r w (some c) = refl
  claims_or-Kept r w none =
      elim (Bool-cases (not (str_eq srv.auth_mode "local") && not (str_eq srv.auth_mode "edge"))) [
        | inl odd ↦ rw (odd) refl
        | inr known ↦ rw (known) (token_of-Kept w (bearer_token r.authorization))
      ]

  pub claims_from_request-Kept :
      (r : HttpRequest) (w : World R S) → (claims_from_request srv r w).0.store ≡ w.store
  unfolding claims_from_request
  claims_from_request-Kept r w = claims_or-Kept r w r.context

  claimed_from :
      (next : Claims → Handler R S) (r : HttpRequest) (w : World R S)
      (out : World R S × Result Claims)
      → out.0.store ≡ w.store
      → ((c : Claims) → out.1 ≡ ok c → (v : World R S) → (next c r v).0.store ≡ v.store)
      → Kept w (claimed next r out)
  claimed_from next r w (v, err e) same h = same
  claimed_from next r w (v, ok c) same h = h c refl v ∙ same

  pub claimed-Kept :
      (next : Claims → Handler R S) (r : HttpRequest) (w : World R S)
      → ((c : Claims)
          → (claims_from_request srv r w).1 ≡ ok c
          → (v : World R S) → (next c r v).0.store ≡ v.store)
      → Kept w (claimed next r (claims_from_request srv r w))
  claimed-Kept next r w h =
      claimed_from next r w (claims_from_request srv r w) (claims_from_request-Kept r w) h

  -- The login.
  logged_in-Kept :
      (w : World R S) (user : User) (token : String) (out : S × Result (Unit {0}))
      → Kept w (logged_in srv w user token out)
  logged_in-Kept w user token (s, err e) = refl
  logged_in-Kept w user token (s, ok kept) = refl

  keep_session-Kept :
      (w : World R S) (user : User) (token : String) (out : Result Claims)
      → Kept w (keep_session srv w user token out)
  keep_session-Kept w user token (err e) = refl
  keep_session-Kept w user token (ok c) =
      logged_in-Kept w user token (srv.token_sessions.save token c w.sessions)

  check_token-Kept :
      (w : World R S) (user : User) (out : Result String) → Kept w (check_token srv w user out)
  check_token-Kept w user (err e) = refl
  check_token-Kept w user (ok token) =
      keep_session-Kept w user token (verify_token srv.codec srv.jwt_secret token)

  log_in-Kept : (w : World R S) (out : Option User) → Kept w (log_in srv w out)
  log_in-Kept w none = refl
  log_in-Kept w (some user) =
      check_token-Kept w user
        (create_token srv.codec srv.jwt_secret (claims_of user) (8 * 3600000000000))

  decoded-Kept :
      {Q : Type 0} (w : World R S) (out : Result Q) (next : Q → World R S × HttpReply)
      → ((q : Q) → Kept w (next q))
      → Kept w (decoded w out next)
  decoded-Kept w (err e) next h = refl
  decoded-Kept w (ok q) next h = h q

  pub handle_login-Kept : (r : HttpRequest) (w : World R S) → Kept w (handle_login srv r w)
  unfolding handle_login
  handle_login-Kept r w =
      decoded-Kept w (srv.reader.login r.body)
        (λ req. log_in srv w (srv.store.authenticate req.username req.password w.store))
        λ req. log_in-Kept w (srv.store.authenticate req.username req.password w.store)

  pub shown-Kept :
      {A : Type 0} (w : World R S) (status : ℕ) (body : A → Body) (out : Result A)
      → Kept w (shown w status body out)
  shown-Kept w status body (ok a) = refl
  shown-Kept w status body (err e) = refl

  pub handle_orders-Kept :
      (c : Claims) (r : HttpRequest) (w : World R S)
      → str_eq r.method "POST" && is_sales c.role ≡ false
      → str_eq r.method "DELETE" && true ≡ false
      → Kept w (handle_orders srv c r w)
  unfolding handle_orders
  handle_orders-Kept c r w posts deletes = ground arith

  pub handle_users-Kept :
      (c : Claims) (r : HttpRequest) (w : World R S)
      → str_eq r.method "POST" && is_admin c.role ≡ false
      → str_eq r.method "PATCH" && is_admin c.role ≡ false
      → Kept w (handle_users srv c r w)
  unfolding handle_users
  handle_users-Kept c r w posts patches = ground arith

  pub handle_user_by_username-Kept :
      (c : Claims) (r : HttpRequest) (w : World R S)
      → str_eq r.method "DELETE" && is_admin c.role ≡ false
      → Kept w (handle_user_by_username srv c r w)
  unfolding handle_user_by_username
  handle_user_by_username-Kept c r w deletes = ground arith

  pub handle_hpa_peak_demo-Kept :
      (c : Claims) (r : HttpRequest) (w : World R S)
      → str_eq r.method "DELETE" && is_admin c.role ≡ false
      → Kept w (handle_hpa_peak_demo srv c r w)
  unfolding handle_hpa_peak_demo
  handle_hpa_peak_demo-Kept c r w deletes = ground arith

  pub handle_schedule_jobs-Kept :
      (c : Claims) (r : HttpRequest) (w : World R S)
      → str_eq r.method "POST" && is_scheduler c.role ≡ false
      → Kept w (handle_schedule_jobs srv c r w)
  unfolding handle_schedule_jobs
  handle_schedule_jobs-Kept c r w posts = ground arith

  pub demo_conflict_orders-Kept :
      (c : Claims) (r : HttpRequest) (w : World R S)
      → admin_or_scheduler c.role ≡ false
      → Kept w (demo_conflict_orders srv c r w)
  unfolding demo_conflict_orders
  demo_conflict_orders-Kept c r w h = ground arith
