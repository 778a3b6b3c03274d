-- ===== src/Http/Server.antt =====
-- `Server` of internal/api/server.go: a request and a reply, the claims of a request, and the helpers
-- that the handlers share. The store, the sessions of tokens, the publisher of jobs, the tokens' codec
-- and the JSON decoder are arguments of the server.
use woms.Base.{ℕ, ◌&&◌, ◌||◌, not, Bool, List, Option, none, some, String, str_eq, if◌then◌else◌}
use woms.Base.Int.{ℤ}
use woms.Base.Results.{Result, ok, err}
use woms.Domain.{User, Order, ProductionLine, ScheduleJob, AuditEntry}
use woms.Api.Requests.{
  Claims, CreateOrderRequest, UpdateOrderRequest, RejectOrdersRequest, ResubmitOrderRequest,
  CancelOrdersRequest, CancelOrdersResponse, AssignUserRequest, CreateUserRequest,
  ResetUserPasswordRequest, ConfirmPreviewRequest, ScheduleRequest, ProductionStartRequest,
  ProductionConfirmRequest, ProductionConfirmResponse,
}
use woms.Api.Jobs.{SchedulePreviewResponse}
use woms.Api.Views.{CalendarResponse}
use woms.Api.Demo.{DemoConflictRequest}
use woms.Api.HpaSummary.{HpaPeakSummary}
use woms.Auth.Token.{Codec, bearer_token, verify_token, invalid_token}
use woms.Http.Messages.{zh_user_message}
use woms.Http.Store.{Store}

-- `context` is what `ServeHTTP` hands to the handlers, `line_id` and `month` are query parameters.
pub record HttpRequest : Type 0 where
  pub method : String
  pub path : String
  pub authorization : String
  pub line_id : String
  pub month : String
  pub body : String
  pub context : Option Claims

pub record LoginRequest : Type 0 where
  pub username : String
  pub password : String

-- What is encoded as JSON in a reply.
pub data Body : Type 0 where
  empty_body metrics_body : Body
  error_body status_body : String → Body
  session_body : String → User → Body
  identity_body : Claims → Body
  order_body : Order → Body
  orders_body : List Order → Body
  lines_body : List ProductionLine → Body
  user_body : User → Body
  users_body : List User → Body
  cancelled_body : CancelOrdersResponse → Body
  preview_body : SchedulePreviewResponse → Body
  calendar_body : CalendarResponse → Body
  history_body : List AuditEntry → Body
  job_body : ScheduleJob → Body
  produced_body : ProductionConfirmResponse → Body
  summary_body : HpaPeakSummary → Body

pub record HttpReply : Type 0 where
  pub status : ℕ
  pub body : Body

abbrev pub write_json : ℕ → Body → HttpReply
write_json status body = record { status = status; body = body }

unfoldable pub write_error : ℕ → String → HttpReply
unfolding zh_user_message
write_error status message = write_json status (error_body (zh_user_message message))

-- `readJSON` for each type of request.
pub record JsonReader : Type 0 where
  pub login : String → Result LoginRequest
  pub create_order : String → Result CreateOrderRequest
  pub cancel_orders : String → Result CancelOrdersRequest
  pub update_order : String → Result UpdateOrderRequest
  pub confirm_preview : String → Result ConfirmPreviewRequest
  pub reject_orders : String → Result RejectOrdersRequest
  pub resubmit_order : String → Result ResubmitOrderRequest
  pub create_user : String → Result CreateUserRequest
  pub assign_user : String → Result AssignUserRequest
  pub reset_user_password : String → Result ResetUserPasswordRequest
  pub demo_conflict : String → Result DemoConflictRequest
  pub schedule : String → Result ScheduleRequest
  pub production_start : String → Result ProductionStartRequest
  pub production_confirm : String → Result ProductionConfirmRequest

-- `TokenSessionStore`.
pub record TokenSessions {ℓ} (S : Type ℓ) : Type ℓ where
  pub save : String → Claims → S → S × Result (Unit {0})
  pub verify : String → Claims → S → S × Result (Unit {0})
  pub revoke : String → S → S

-- `publish` stands for the publisher of jobs, which `is_noop` tells from the one that sends nothing.
pub record Server {ℓ} (R S : Type ℓ) : Type ℓ where
  pub jwt_secret : String
  pub codec : Codec
  pub store : Store R
  pub token_sessions : TokenSessions S
  pub publish : ScheduleJob → Result (Unit {0})
  pub is_noop : Bool
  pub auth_mode : String
  pub reader : JsonReader

-- What the requests change: `online` is the gauge of the users that are online.
pub record World {ℓ} (R S : Type ℓ) : Type ℓ where
  pub store : R
  pub sessions : S
  pub online : ℤ

abbrev pub Handler {ℓ} : (R S : Type ℓ) → Type ℓ
Handler R S = HttpRequest → World R S → World R S × HttpReply

-- The errors of a token are those of internal/auth/jwt.go; any other is one of the session store.
unfoldable pub write_claims_error : String → HttpReply
unfolding write_error
write_claims_error e =
    if str_eq e invalid_token || str_eq e "登入權杖已過期" || str_eq e "token session not found"
    then write_error 401 "unauthorized"
    else write_error 503 "auth session store unavailable"

module _ {ℓ} {R S : Type ℓ} where
  abbrev pub verified : World R S → Claims → S × Result (Unit {0}) → World R S × Result Claims
  verified w claims (s, ok live) = (record w { sessions = s }, ok claims)
  verified w claims (s, err e) = (record w { sessions = s }, err e)

  abbrev pub session_of :
      Server R S → World R S → String → Result Claims → World R S × Result Claims
  session_of srv w token (err e) = (w, err e)
  session_of srv w token (ok claims) =
      verified w claims (srv.token_sessions.verify token claims w.sessions)

  abbrev pub token_of : Server R S → World R S → Result String → World R S × Result Claims
  token_of srv w (err e) = (w, err e)
  token_of srv w (ok token) = session_of srv w token (verify_token srv.codec srv.jwt_secret token)

  abbrev pub claims_or :
      Server R S → HttpRequest → World R S → Option Claims → World R S × Result Claims
  claims_or srv r w (some claims) = (w, ok claims)
  claims_or srv r w none =
      if not (str_eq srv.auth_mode "local") && not (str_eq srv.auth_mode "edge")
      then (w, err invalid_token)
      else token_of srv w (bearer_token r.authorization)

  unfoldable pub claims_from_request :
      Server R S → HttpRequest → World R S → World R S × Result Claims
  unfolding bearer_token verify_token
  claims_from_request srv r w = claims_or srv r w r.context

  -- A handler that starts with the claims of its request.
  abbrev pub claimed :
      (Claims → Handler R S) → HttpRequest → World R S × Result Claims → World R S × HttpReply
  claimed next r (w, err e) = (w, write_error 401 "unauthorized")
  claimed next r (w, ok claims) = next claims r w

  abbrev pub decoded :
      {Q : Type 0} → World R S → Result Q → (Q → World R S × HttpReply) → World R S × HttpReply
  decoded w (err e) next = (w, write_error 400 e)
  decoded w (ok q) next = next q

  -- The reply to an operation of the store, which may have failed.
  abbrev pub stored :
      {A : Type 0} → World R S → ℕ → (A → Body) → R × Result A → World R S × HttpReply
  stored w status body (s, ok a) = (record w { store = s }, write_json status (body a))
  stored w status body (s, err e) = (record w { store = s }, write_error 400 e)

  abbrev pub shown : {A : Type 0} → World R S → ℕ → (A → Body) → Result A → World R S × HttpReply
  shown w status body (ok a) = (w, write_json 200 (body a))
  shown w status body (err e) = (w, write_error status e)
