-- ===== src/Http/Scheduling.antt =====
-- The handlers of internal/api/server.go for schedules, production and the demonstrations.
use woms.Base.{◌&&◌, not, Option, none, some, str_eq, if◌then◌else◌}
use woms.Base.Results.{Result, ok, err}
use woms.Base.Text.{strip_prefix}
use woms.Domain.{ScheduleJob, is_admin, is_scheduler}
use woms.Api.Requests.{Claims}
use woms.Http.Server.{
  HttpReply, Body, Server, World, Handler, write_json, write_error, decoded, stored, shown,
}
use woms.Http.Handlers.{trim_prefix, forbidden, method_not_allowed}

abbrev job_reply : Claims → Option ScheduleJob → HttpReply
job_reply claims none = write_error 404 "schedule job not found"
job_reply claims (some job) =
    if is_scheduler claims.role && not (str_eq claims.line_id job.line_id)
    then write_error 403 "cannot access another production line"
    else write_json 200 (Body.job_body job)

abbrev executed {ℓ} : {R S : Type ℓ} → World R S → R × ScheduleJob → World R S × HttpReply
executed w (s, job) = (record w { store = s }, write_json 202 (Body.job_body job))

module _ {ℓ} {R S : Type ℓ} (srv : Server R S) where
  -- The part of `handleDemoConflictOrders` after the test of the method and the claims.
  unfoldable pub demo_conflict_orders : Claims → Handler R S
  unfolding write_error
  demo_conflict_orders claims r w =
      if not (is_admin claims.role) && not (is_scheduler claims.role)
      then (w, forbidden "only admin or schedulers can create demo conflict orders")
      else decoded w (srv.reader.demo_conflict r.body) λ req.
        stored w 201 Body.orders_body (srv.store.create_demo_conflict_orders req claims w.store)

  unfoldable pub handle_schedule_preview : Claims → Handler R S
  unfolding write_error
  handle_schedule_preview claims r w =
      decoded w (srv.reader.schedule r.body)
        λ req. stored w 200 Body.preview_body (srv.store.preview_schedule req claims w.store)

  unfoldable pub handle_hpa_peak_demo : Claims → Handler R S
  unfolding write_error
  handle_hpa_peak_demo claims r w =
      if not (is_admin claims.role)
      then (w, forbidden "只有管理員可以查看 web autoscaling demo。")
      else if str_eq r.method "GET"
      then (w, write_json 200 (Body.summary_body (srv.store.hpa_peak_summary w.store)))
      else if str_eq r.method "POST"
      then (w, write_json 202 (Body.summary_body (srv.store.hpa_peak_summary w.store)))
      else if str_eq r.method "DELETE"
      then stored w 200 Body.summary_body (srv.store.clear_hpa_peak_demo claims w.store)
      else (w, method_not_allowed)

  unfoldable pub handle_schedule_calendar : Claims → Handler R S
  unfolding write_error
  handle_schedule_calendar claims r w =
      shown w 400 Body.calendar_body (srv.store.schedule_calendar r.line_id r.month claims w.store)

  unfoldable pub handle_schedule_history : Claims → Handler R S
  unfolding write_error
  handle_schedule_history claims r w =
      shown w 403 Body.history_body (srv.store.schedule_history r.line_id claims w.store)

  -- Without a publisher the job is executed at once.
  abbrev pub published : World R S → ScheduleJob → Result (Unit {0}) → World R S × HttpReply
  published w job (err e) = (
    record w { store = srv.store.delete_queued_schedule_job job.id w.store },
    write_error 502 "排程任務送出失敗，請稍後再試。",
  )
  published w job (ok sent) =
      if srv.is_noop
      then executed w (srv.store.execute_schedule_job job.id w.store)
      else (w, write_json 202 (Body.job_body job))

  abbrev pub created : World R S → R × Result ScheduleJob → World R S × HttpReply
  created w (s, err e) = (record w { store = s }, write_error 400 e)
  created w (s, ok job) = published (record w { store = s }) job (srv.publish job)

  unfoldable pub handle_schedule_jobs : Claims → Handler R S
  unfolding write_error
  handle_schedule_jobs claims r w =
      if not (is_scheduler claims.role)
      then (w, forbidden "only schedulers can create schedule jobs")
      else if not (str_eq r.method "POST")
      then (w, method_not_allowed)
      else decoded w (srv.reader.schedule r.body)
          λ req. created w (srv.store.create_schedule_job req claims w.store)

  unfoldable pub handle_get_schedule_job : Claims → Handler R S
  unfolding write_error strip_prefix
  handle_get_schedule_job claims r w = (
    w,
    job_reply claims
        (srv.store.get_schedule_job (trim_prefix "/api/schedules/jobs/" r.path) w.store),
  )

  unfoldable pub handle_production_confirm : Claims → Handler R S
  unfolding write_error
  handle_production_confirm claims r w =
      if not (is_scheduler claims.role)
      then (w, forbidden "only schedulers can confirm production")
      else decoded w (srv.reader.production_confirm r.body)
          λ req. stored w 200 Body.produced_body (srv.store.confirm_production req claims w.store)

  unfoldable pub handle_production_start : Claims → Handler R S
  unfolding write_error
  handle_production_start claims r w =
      if not (is_scheduler claims.role)
      then (w, forbidden "only schedulers can start production")
      else decoded w (srv.reader.production_start r.body)
          λ req. stored w 200 Body.order_body (srv.store.start_production req claims w.store)
