-- ===== src/Http/ScheduleRoutes.antt =====
-- The routes of internal/api/server.go for schedules, production and the demonstrations, against the table of Http/Access.
use woms.Base.{refl, str_eq, Bool-cases, inl, inr}
use woms.Domain.{is_scheduler}
use woms.Http.Server.{Server, Body}
use woms.Http.Scheduling.{
  demo_conflict_orders, handle_schedule_preview, handle_schedule_calendar, handle_schedule_history,
  handle_hpa_peak_demo, handle_schedule_jobs, handle_get_schedule_job, handle_production_confirm,
  handle_production_start,
}
use woms.Http.Routes.{at, below, matches, handle_demo_conflict_orders, with_claims}
use woms.Http.Access.{anyone, refused_rows, and-refused, and-true}
use woms.Http.Guards.{
  claimed-Kept, shown-Kept, handle_hpa_peak_demo-Kept, handle_schedule_jobs-Kept,
  demo_conflict_orders-Kept,
}
use woms.Http.Access.{on}
use woms.Http.RouteGuards.{Guarded, reading, writing, true≢false}

module _ {ℓ} {R S : Type ℓ} (srv : Server R S) where
  pub conflicts-Guarded :
      Guarded srv (at "" "/api/demo/conflict-orders" (handle_demo_conflict_orders srv))
  unfolding matches
  conflicts-Guarded = record {
    kept = λ r w found refused. elim (Bool-cases (str_eq r.method "POST")) [
      | inr other ↦ rw (other) refl
      | inl post ↦ rw (post) (
          claimed-Kept srv (demo_conflict_orders srv) r w λ c got v.
            demo_conflict_orders-Kept srv c r v (
              and-true _ _
                (and-refused _ _ _ ((refused_rows c.role r (refused c got)).1.1.1.1.1.1.1.1.1.1.0)
                  found)
                post))
    ];
  }

  pub hpa-Guarded : Guarded srv (at "" "/api/demo/hpa-peak" (with_claims srv handle_hpa_peak_demo))
  unfolding matches
  hpa-Guarded = record {
    kept = λ r w found refused. claimed-Kept srv (handle_hpa_peak_demo srv) r w λ c got v.
        handle_hpa_peak_demo-Kept srv c r v (
          and-refused _ _ _ ((refused_rows c.role r (refused c got)).1.1.1.1.1.1.1.1.1.1.1.0)
            found);
  }

  pub preview-Guarded :
      Guarded srv (at "POST" "/api/schedules/preview" (with_claims srv handle_schedule_preview))
  preview-Guarded =
      writing srv (on "POST" "/api/schedules/preview" anyone) handle_schedule_preview refl
        (λ role r h. (refused_rows role r h).1.1.1.1.1.1.1.1.1.1.1.1.0)
        (λ c r v h. absurd (true≢false h))

  pub calendar-Guarded :
      Guarded srv (at "GET" "/api/schedules/calendar" (with_claims srv handle_schedule_calendar))
  unfolding handle_schedule_calendar
  calendar-Guarded =
      reading srv "GET" "/api/schedules/calendar" "" handle_schedule_calendar (λ c r v.
        shown-Kept srv v 400 Body.calendar_body
          (srv.store.schedule_calendar r.line_id r.month c v.store))

  pub history-Guarded :
      Guarded srv (at "GET" "/api/schedules/history" (with_claims srv handle_schedule_history))
  unfolding handle_schedule_history
  history-Guarded = reading srv "GET" "/api/schedules/history" "" handle_schedule_history (λ c r v.
      shown-Kept srv v 403 Body.history_body (srv.store.schedule_history r.line_id c v.store))

  pub jobs-Guarded :
      Guarded srv (at "" "/api/schedules/jobs" (with_claims srv handle_schedule_jobs))
  unfolding matches
  jobs-Guarded = record {
    kept = λ r w found refused. claimed-Kept srv (handle_schedule_jobs srv) r w λ c got v.
        handle_schedule_jobs-Kept srv c r v (
          and-refused _ _ _ ((refused_rows c.role r (refused c got)).1.1.1.1.1.1.1.1.1.1.1.1.1.0)
            found);
  }

  pub job-Guarded :
      Guarded srv (below "GET" "/api/schedules/jobs/" (with_claims srv handle_get_schedule_job))
  unfolding handle_get_schedule_job
  job-Guarded = reading srv "GET" "" "/api/schedules/jobs/" handle_get_schedule_job (λ c r v. refl)

  pub confirm-Guarded :
      Guarded srv (at "POST" "/api/production/confirm" (with_claims srv handle_production_confirm))
  unfolding handle_production_confirm
  confirm-Guarded =
      writing srv (on "POST" "/api/production/confirm" is_scheduler) handle_production_confirm refl
        (λ role r h. (refused_rows role r h).1.1.1.1.1.1.1.1.1.1.1.1.1.1.0)
        (λ c r v h. rw (handle_production_confirm, h) refl)

  pub start-Guarded :
      Guarded srv (at "POST" "/api/production/start" (with_claims srv handle_production_start))
  unfolding handle_production_start
  start-Guarded =
      writing srv (on "POST" "/api/production/start" is_scheduler) handle_production_start refl
        (λ role r h. (refused_rows role r h).1.1.1.1.1.1.1.1.1.1.1.1.1.1.1.0)
        (λ c r v h. rw (handle_production_start, h) refl)
