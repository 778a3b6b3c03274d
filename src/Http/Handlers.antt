-- ===== src/Http/Handlers.antt =====
-- The handlers of internal/api/server.go for the session, orders and accounts. Each one but the login
-- and the logout is its part after `claimsFromRequest`, which `claimed` puts before it.
use Prim.Native.Char.{code}
use woms.Base.{
  zero, suc, ◌*◌, ◌||◌, not, Bool, false, ◌==◌, Option, none, some, String, str_eq, if◌then◌else◌,
}
use woms.Base.Int.{ℤ, pos, negsuc}
use woms.Base.Results.{Result, ok, err}
use woms.Base.Text.{trim_space, strip_prefix}
use woms.Domain.{User, is_admin, is_sales, is_scheduler}
use woms.Api.Requests.{Claims}
use woms.Auth.Token.{create_token, verify_token, bearer_token}
use woms.Http.Server.{
  HttpRequest, HttpReply, Body, Server, World, Handler, write_json, write_error, decoded, stored,
}

-- `Inc` and `Dec` of a gauge.
abbrev pub inc : ℤ → ℤ
inc (pos n) = pos (suc n)
inc (negsuc zero) = pos zero
inc (negsuc (suc n)) = negsuc n

abbrev pub dec : ℤ → ℤ
dec (pos (suc n)) = pos n
dec (pos zero) = negsuc zero
dec (negsuc n) = negsuc (suc n)

-- `strings.TrimPrefix`
abbrev pub trim_prefix : String → String → String
trim_prefix prefix text = elim (strip_prefix prefix text) [ none ↦ text | some rest ↦ rest ]

unfoldable pub healthz_handler {ℓ} : {R S : Type ℓ} → Handler R S
healthz_handler r w = (w, write_json 200 (Body.status_body "ok"))

unfoldable pub readyz_handler {ℓ} : {R S : Type ℓ} → Handler R S
readyz_handler r w = (w, write_json 200 (Body.status_body "ready"))

abbrev pub method_not_allowed : HttpReply
method_not_allowed = write_error 405 "method not allowed"

abbrev pub forbidden : String → HttpReply
forbidden message = write_error 403 message

-- `strings.Contains(username, "/")`
unfoldable pub has_slash : String → Bool
has_slash String.[] = false
has_slash (String.◌∷◌ c rest) = code c == b'/' || has_slash rest

abbrev pub username_of : HttpRequest → String
username_of r = trim_space (trim_prefix "/api/users/" r.path)

abbrev pub claims_of : User → Claims
claims_of user = record { subject = user.id; role = user.role; line_id = user.line_id; expires = 0 }

module _ {ℓ} {R S : Type ℓ} (srv : Server R S) where
  -- The login is counted if its session is kept.
  abbrev pub logged_in : World R S → User → String → S × Result (Unit {0}) → World R S × HttpReply
  logged_in w user token (s, err e) =
      (record w { sessions = s }, write_error 503 "auth session store unavailable")
  logged_in w user token (s, ok kept) = (
    record w { sessions = s; online = inc w.online },
    write_json 200 (Body.session_body token user),
  )

  abbrev pub keep_session : World R S → User → String → Result Claims → World R S × HttpReply
  keep_session w user token (err e) = (w, write_error 500 "登入服務暫時不可用。")
  keep_session w user token (ok claims) =
      logged_in w user token (srv.token_sessions.save token claims w.sessions)

  abbrev pub check_token : World R S → User → Result String → World R S × HttpReply
  check_token w user (err e) = (w, write_error 500 "登入服務暫時不可用。")
  check_token w user (ok token) =
      keep_session w user token (verify_token srv.codec srv.jwt_secret token)

  abbrev pub log_in : World R S → Option User → World R S × HttpReply
  log_in w none = (w, write_error 401 "invalid credentials")
  log_in w (some user) =
      check_token w user
        (create_token srv.codec srv.jwt_secret (claims_of user) (8 * 3600000000000))

  unfoldable pub handle_login : Handler R S
  unfolding write_error verify_token create_token
  handle_login r w =
      decoded w (srv.reader.login r.body)
        λ req. log_in w (srv.store.authenticate req.username req.password w.store)

  unfoldable pub handle_ingress_auth : Claims → Handler R S
  handle_ingress_auth claims r w = (w, write_json 204 (Body.identity_body claims))

  abbrev pub revoke_token : Result String → S → S
  revoke_token (err e) s = s
  revoke_token (ok token) s = srv.token_sessions.revoke token s

  unfoldable pub handle_logout : Handler R S
  unfolding bearer_token
  handle_logout r w = (
    record w {
      sessions = revoke_token (bearer_token r.authorization) w.sessions;
      online = dec w.online;
    },
    write_json 200 (Body.status_body "ok"),
  )

  abbrev pub post_order : Claims → Handler R S
  post_order claims r w =
      if not (is_sales claims.role)
      then (w, forbidden "only sales can create orders")
      else decoded w (srv.reader.create_order r.body)
          λ req. stored w 201 Body.order_body (srv.store.create_order req claims.subject w.store)

  abbrev pub delete_orders : Claims → Handler R S
  delete_orders claims r w =
      decoded w (srv.reader.cancel_orders r.body)
        λ req. stored w 200 Body.cancelled_body (srv.store.cancel_orders req claims w.store)

  unfoldable pub handle_orders : Claims → Handler R S
  unfolding write_error
  handle_orders claims r w =
      if str_eq r.method "GET"
      then (w, write_json 200 (Body.orders_body (srv.store.list_orders claims w.store)))
      else if str_eq r.method "POST"
      then post_order claims r w
      else if str_eq r.method "DELETE"
      then delete_orders claims r w
      else (w, method_not_allowed)

  unfoldable pub handle_lines : Claims → Handler R S
  handle_lines claims r w = (w, write_json 200 (Body.lines_body (srv.store.list_lines w.store)))

  unfoldable pub handle_confirm_preview_order : Claims → Handler R S
  unfolding write_error
  handle_confirm_preview_order claims r w =
      if not (is_sales claims.role)
      then (w, forbidden "only sales can confirm preview orders")
      else decoded w (srv.reader.confirm_preview r.body)
          λ req. stored w 201 Body.order_body (srv.store.confirm_preview_order req claims w.store)

  unfoldable pub handle_reject_orders : Claims → Handler R S
  unfolding write_error
  handle_reject_orders claims r w =
      if not (is_scheduler claims.role)
      then (w, forbidden "only schedulers can reject orders")
      else decoded w (srv.reader.reject_orders r.body)
          λ req. stored w 200 Body.orders_body (srv.store.reject_orders req claims w.store)

  unfoldable pub handle_resubmit_order : Claims → Handler R S
  unfolding write_error
  handle_resubmit_order claims r w =
      if not (is_sales claims.role)
      then (w, forbidden "only sales can resubmit pending or rejected orders")
      else decoded w (srv.reader.resubmit_order r.body)
          λ req. stored w 200 Body.order_body (srv.store.resubmit_order req claims w.store)

  unfoldable pub handle_update_order : Claims → Handler R S
  unfolding write_error strip_prefix
  handle_update_order claims r w = decoded w (srv.reader.update_order r.body) λ req.
      stored w 200 Body.order_body
        (srv.store.update_order_due_date (trim_prefix "/api/orders/" r.path) req claims w.store)

  abbrev post_user : Claims → Handler R S
  post_user claims r w =
      decoded w (srv.reader.create_user r.body)
        λ req. stored w 201 Body.user_body (srv.store.create_user req claims.subject w.store)

  abbrev patch_user : Claims → Handler R S
  patch_user claims r w =
      decoded w (srv.reader.assign_user r.body)
        λ req. stored w 200 Body.user_body (srv.store.assign_user req claims.subject w.store)

  unfoldable pub handle_users : Claims → Handler R S
  unfolding write_error
  handle_users claims r w =
      if not (is_admin claims.role)
      then (w, forbidden "only admin can manage accounts")
      else if str_eq r.method "GET"
      then (w, write_json 200 (Body.users_body (srv.store.list_users w.store)))
      else if str_eq r.method "POST"
      then post_user claims r w
      else if str_eq r.method "PATCH"
      then patch_user claims r w
      else (w, method_not_allowed)

  unfoldable pub handle_reset_user_password : Claims → Handler R S
  unfolding write_error
  handle_reset_user_password claims r w =
      if not (is_admin claims.role)
      then (w, forbidden "only admin can manage accounts")
      else decoded w (srv.reader.reset_user_password r.body) λ req.
        stored w 200 Body.user_body (srv.store.reset_user_password req claims.subject w.store)

  unfoldable pub handle_user_by_username : Claims → Handler R S
  unfolding write_error strip_prefix trim_space has_slash
  handle_user_by_username claims r w =
      if not (is_admin claims.role)
      then (w, forbidden "only admin can manage accounts")
      else if str_eq (username_of r) "" || has_slash (username_of r)
      then (w, write_error 404 "route not found")
      else if not (str_eq r.method "DELETE")
      then (w, method_not_allowed)
      else stored w 200 Body.user_body
          (srv.store.delete_user (username_of r) claims.subject w.store)
