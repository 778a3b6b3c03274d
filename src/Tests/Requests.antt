-- ===== src/Tests/Requests.antt =====
-- Concrete requests to the handlers of internal/api/server.go and to cmd/healthcheck/main.go, and
-- the theorems on them.
use woms.Base.{ℕ, ◌↔◌, str_eq, if◌then◌else◌, ◌*◌, ◌≡◌, refl, false, true, [], ◌∷◌, none, some}
use woms.Base.Int.{pos}
use woms.Base.Maps.{lookup}
use woms.Base.Results.{ok, err, ok-injective}
use woms.Domain.{sales, scheduler}
use woms.Api.Requests.{Claims, PreviewRecord}
use woms.Api.State.{MemoryStore}
use woms.Api.Planning.{normalized_preview_request}
use woms.Api.Jobs.{creatable_job}
use woms.Auth.Token.{Codec, bearer_token}
use woms.Auth.Sessions.{Sessions}
use woms.Auth.Sessions
use woms.Http.Messages.{contains_cjk, zh_user_message, contains_cjk-zh_user_message}
use woms.Healthcheck.{HttpClient, Answers, run_healthcheck, run_healthcheck_iff}
use woms.Http.Store.{memory_store}
use woms.Http.Server.{HttpRequest, JsonReader, Server, World, claims_from_request}
use woms.Http.Handlers.{handle_logout}
use woms.Http.Scheduling.{handle_schedule_jobs}
use woms.Http.Routes.{serve_http, is_public_api_path}
use woms.Http.Access.{may_change}
use woms.Http.Admission.{serve_http-keeps}
use woms.Http.LoggedOut.{
  memory_sessions, memory_sessions-IsForgotten, unauthorized, handle_logout-serve_http,
}
use woms.Http.Unpublished.{in_memory, IsWithdrawn, handle_schedule_jobs-IsWithdrawn}
use woms.Tests.Stores.{today, env, store, planner, job_request}

abbrev seller : Claims
seller = record { subject = "user-ada"; role = sales; line_id = ""; expires = 1780531260 }

abbrev token_codec : Codec
token_codec = record {
  now = 740136 * 86400000000000;
  sign = λ secret input. "sig";
  encode = λ text. "enc";
  decode = λ text. some "claims";
  header_json = "header";
  marshal = λ claims. "claims";
  unmarshal = λ text. some seller;
}

-- A reader that reads schedule requests only.
abbrev reader : JsonReader
reader = record {
  login = λ body. err "EOF";
  create_order = λ body. err "EOF";
  cancel_orders = λ body. err "EOF";
  update_order = λ body. err "EOF";
  confirm_preview = λ body. err "EOF";
  reject_orders = λ body. err "EOF";
  resubmit_order = λ body. err "EOF";
  create_user = λ body. err "EOF";
  assign_user = λ body. err "EOF";
  reset_user_password = λ body. err "EOF";
  demo_conflict = λ body. err "EOF";
  schedule = λ body. ok job_request;
  production_start = λ body. err "EOF";
  production_confirm = λ body. err "EOF";
}

abbrev server : Server MemoryStore Sessions
server = record {
  jwt_secret = "key";
  codec = token_codec;
  store = memory_store env;
  token_sessions = memory_sessions (λ token. token) 1780531000;
  publish = λ job. err "no broker";
  is_noop = false;
  auth_mode = "local";
  reader = reader;
}

abbrev later_server : Server MemoryStore Sessions
later_server = record server { token_sessions = memory_sessions (λ token. token) 1780531100 }

abbrev live : Sessions
live = ("enc.enc.sig", 1780531260) ∷ []

abbrev world : World MemoryStore Sessions
world = record { store = store; sessions = live; online = pos 1 }

abbrev account_request : HttpRequest
account_request = record {
  method = "POST";
  path = "/api/users";
  authorization = "Bearer enc.enc.sig";
  line_id = "";
  month = "";
  body = "{}";
  context = none;
}

abbrev logout_request : HttpRequest
logout_request = record account_request { path = "/api/auth/logout" }

seller_claims : (claims_from_request server account_request world).1 ≡ ok seller
unfolding claims_from_request Sessions.verify
seller_claims = refl

seller_may : may_change sales account_request ≡ false
unfolding may_change
seller_may = refl

-- A seller's POST to the accounts.
serve_http-keeps_example : (serve_http server account_request world).0.store ≡ store
unfolding claims_from_request Sessions.verify
serve_http-keeps_example =
    serve_http-keeps server account_request world λ c got. rw (← ok-injective got) seller_may

handle_logout-serve_http_example :
    ((serve_http later_server account_request (handle_logout server logout_request world).0).1
      ≡ unauthorized)
    × ((serve_http later_server account_request
          (handle_logout server logout_request world).0).0.store
        ≡ store)
unfolding bearer_token is_public_api_path
handle_logout-serve_http_example =
    handle_logout-serve_http later_server server logout_request account_request world "enc.enc.sig"
      (memory_sessions-IsForgotten (λ token. token) 1780531000 1780531100) refl refl refl refl refl
      refl

contains_cjk-zh_user_message_example :
    contains_cjk (zh_user_message "order not found: ORD-1") ≡ true
contains_cjk-zh_user_message_example = contains_cjk-zh_user_message "order not found: ORD-1"

-- The preview of `job_request`.
abbrev preview : PreviewRecord
preview = record {
  actor_id = "user-bo";
  actor_role = scheduler;
  line_id = "A";
  line_revision = 0;
  request = normalized_preview_request job_request;
  request_hash = "hash";
  draft_order = none;
  allocations = [];
  conflicts = [];
  created_at = today;
}

abbrev previewed_world : World MemoryStore Sessions
previewed_world = record world { store = record store { previews = ("PREVIEW-1", preview) ∷ [] } }

abbrev job_post : HttpRequest
job_post = record account_request { path = "/api/schedules/jobs" }

handle_schedule_jobs-IsWithdrawn_example :
    let out = handle_schedule_jobs (in_memory server env) planner job_post previewed_world in
    (out.1.status ≡ 502) × IsWithdrawn previewed_world.store out.0.store
unfolding creatable_job normalized_preview_request lookup
handle_schedule_jobs-IsWithdrawn_example =
    handle_schedule_jobs-IsWithdrawn server env planner job_post previewed_world "no broker"
      job_request job_request preview (λ job. refl) refl refl refl refl

abbrev ready_client : HttpClient ℕ
ready_client = record {
  parse_duration = λ text. if str_eq text "2s" then ok 2 else err "invalid duration";
  new_request = λ url. ok tt;
  status_of = λ url timeout. ok 204;
}

run_healthcheck_iff_example :
    (run_healthcheck ready_client (λ key. "") ≡ 0) ↔ Answers ready_client (λ key. "")
run_healthcheck_iff_example = run_healthcheck_iff ready_client (λ key. "")

ready : run_healthcheck ready_client (λ key. "") ≡ 0
unfolding run_healthcheck
ready = refl
