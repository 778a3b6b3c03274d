-- ===== src/Http/OrderRoutes.antt =====
-- The routes of internal/api/server.go for the session, orders and accounts, against the table of Http/Access.
use woms.Base.{refl}
use woms.Domain.{is_admin, is_sales, is_scheduler}
use woms.Http.Server.{Server}
use woms.Http.Handlers.{
  handle_ingress_auth, handle_orders, handle_lines, handle_confirm_preview_order,
  handle_reject_orders, handle_resubmit_order, handle_update_order, handle_users,
  handle_reset_user_password, handle_user_by_username, healthz_handler, readyz_handler,
  handle_logout,
}
use woms.Http.Routes.{at, below, matches, with_claims}
use woms.Http.Access.{anyone, refused_rows, and-refused}
use woms.Http.Guards.{
  claimed-Kept, handle_login-Kept, handle_orders-Kept, handle_users-Kept,
  handle_user_by_username-Kept,
}
use woms.Http.Access.{on, under}
use woms.Http.Handlers.{handle_login}
use woms.Http.RouteGuards.{Guarded, reading, writing, true≢false}

module _ {ℓ} {R S : Type ℓ} (srv : Server R S) where
  pub healthz-Guarded : Guarded srv (at "GET" "/healthz" (healthz_handler))
  unfolding healthz_handler
  healthz-Guarded = record { kept = λ r w found refused. refl }

  pub readyz-Guarded : Guarded srv (at "GET" "/readyz" (readyz_handler))
  unfolding readyz_handler
  readyz-Guarded = record { kept = λ r w found refused. refl }

  pub login-Guarded : Guarded srv (at "POST" "/api/auth/login" (handle_login srv))
  login-Guarded = record { kept = λ r w found refused. handle_login-Kept srv r w }

  pub logout-Guarded : Guarded srv (at "POST" "/api/auth/logout" (handle_logout srv))
  unfolding handle_logout
  logout-Guarded = record { kept = λ r w found refused. refl }

  pub identity-Guarded :
      Guarded srv (at "GET" "/internal/auth/verify" (with_claims srv handle_ingress_auth))
  unfolding handle_ingress_auth
  identity-Guarded =
      reading srv "GET" "/internal/auth/verify" "" handle_ingress_auth (λ c r v. refl)

  pub orders-Guarded : Guarded srv (at "" "/api/orders" (with_claims srv handle_orders))
  unfolding matches
  orders-Guarded = record {
    kept = λ r w found refused. claimed-Kept srv (handle_orders srv) r w λ c got v.
        let rows = refused_rows c.role r (refused c got) in
        handle_orders-Kept srv c r v (and-refused _ _ _ (rows.0) found)
          (and-refused _ _ _ (rows.1.0) found);
  }

  pub lines-Guarded : Guarded srv (at "GET" "/api/lines" (with_claims srv handle_lines))
  unfolding handle_lines
  lines-Guarded = reading srv "GET" "/api/lines" "" handle_lines (λ c r v. refl)

  pub preview_order-Guarded :
      Guarded srv
        (at "POST" "/api/orders/preview-confirm" (with_claims srv handle_confirm_preview_order))
  unfolding handle_confirm_preview_order
  preview_order-Guarded =
      writing srv (on "POST" "/api/orders/preview-confirm" is_sales) handle_confirm_preview_order
        refl (λ role r h. (refused_rows role r h).1.1.0)
        (λ c r v h. rw (handle_confirm_preview_order, h) refl)

  pub reject-Guarded :
      Guarded srv (at "POST" "/api/orders/reject" (with_claims srv handle_reject_orders))
  unfolding handle_reject_orders
  reject-Guarded =
      writing srv (on "POST" "/api/orders/reject" is_scheduler) handle_reject_orders refl
        (λ role r h. (refused_rows role r h).1.1.1.0) (λ c r v h. rw (handle_reject_orders, h) refl)

  pub resubmit-Guarded :
      Guarded srv (at "POST" "/api/orders/resubmit" (with_claims srv handle_resubmit_order))
  unfolding handle_resubmit_order
  resubmit-Guarded =
      writing srv (on "POST" "/api/orders/resubmit" is_sales) handle_resubmit_order refl
        (λ role r h. (refused_rows role r h).1.1.1.1.0)
        (λ c r v h. rw (handle_resubmit_order, h) refl)

  pub update-Guarded :
      Guarded srv (below "PATCH" "/api/orders/" (with_claims srv handle_update_order))
  update-Guarded =
      writing srv (under "PATCH" "/api/orders/" anyone) handle_update_order refl
        (λ role r h. (refused_rows role r h).1.1.1.1.1.0) (λ c r v h. absurd (true≢false h))

  pub password-Guarded :
      Guarded srv (at "PATCH" "/api/users/password" (with_claims srv handle_reset_user_password))
  unfolding handle_reset_user_password
  password-Guarded =
      writing srv (on "PATCH" "/api/users/password" is_admin) handle_reset_user_password refl
        (λ role r h. (refused_rows role r h).1.1.1.1.1.1.0)
        (λ c r v h. rw (handle_reset_user_password, h) refl)

  pub user-Guarded : Guarded srv (below "" "/api/users/" (with_claims srv handle_user_by_username))
  unfolding matches
  user-Guarded = record {
    kept = λ r w found refused. claimed-Kept srv (handle_user_by_username srv) r w λ c got v.
        handle_user_by_username-Kept srv c r v
          (and-refused _ _ _ ((refused_rows c.role r (refused c got)).1.1.1.1.1.1.1.0) found);
  }

  pub users-Guarded : Guarded srv (at "" "/api/users" (with_claims srv handle_users))
  unfolding matches
  users-Guarded = record {
    kept = λ r w found refused. claimed-Kept srv (handle_users srv) r w λ c got v.
        let rows = refused_rows c.role r (refused c got) in
        handle_users-Kept srv c r v (and-refused _ _ _ (rows.1.1.1.1.1.1.1.1.0) found)
          (and-refused _ _ _ (rows.1.1.1.1.1.1.1.1.1.0) found);
  }
