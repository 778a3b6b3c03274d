-- ===== src/Http/LoggedOut.antt =====
-- What the handlers of internal/api/server.go answer to a token after its logout.
use Prim.Native.String
use woms.Base.{
  leb, ℕ, ◌≡◌, refl, sym, ap, subst, ◌&&◌, ◌||◌, not, Bool, true, false, Option, none, some, String,
  str_eq, eq_iff, Bool-cases, inl, inr, arith,
}
use woms.Base.Results.{Result, ok, err, or_fail, refuse_if, ◌>>=◌, ◌>>◌, ok≢err}
use woms.Base.Text.{split_on, strip_prefix, trim_space}
use woms.Clock.{unix_seconds}
use woms.Domain.{role_text, is_scheduler}
use woms.Api.Validation.{unknown_role}
use woms.Api.Requests.{Claims}
use woms.Auth.Token.{Codec, bearer_token, verify_token, check_claims, invalid_token, three_parts}
use woms.Auth.Sessions.{Sessions, save, verify, revoke, revoke-verify}
use woms.Http.Server.{
  HttpRequest, HttpReply, Server, World, TokenSessions, claims_from_request, claims_or, session_of,
  verified, write_error, write_claims_error,
}
use woms.Http.Handlers.{handle_logout, revoke_token}
use woms.Http.Routes.{serve_http, admitted, has_prefix, is_public_api_path}

-- The sessions in memory, at a reading of the clock.
abbrev pub memory_sessions : (String → String) → ℕ → TokenSessions Sessions
memory_sessions key now = record {
  save = λ token claims s. save key now token claims s;
  verify = λ token claims s. verify key now token s;
  revoke = λ token s. (revoke key token s).0;
}

-- The later sessions do not know a token that the earlier ones revoked.
pub record IsForgotten {ℓ} {S : Type ℓ} (early late : TokenSessions S) : Type ℓ where
  pub forgotten :
      (token : String) (c : Claims) (s : S)
      → (late.verify token c (early.revoke token s)).1 ≡ err "token session not found"

pub memory_sessions-IsForgotten :
    (key : String → String) (before after : ℕ)
    → IsForgotten (memory_sessions key before) (memory_sessions key after)
memory_sessions-IsForgotten key before after = record {
  forgotten = λ token c s. revoke-verify key after token s;
}

abbrev pub unauthorized : HttpReply
unauthorized = write_error 401 "unauthorized"

-- A result that is no error but one that the reply 401 stands for.
record IsTokenResult {A : Type 0} (out : Result A) : Type 0 where
  known : (e : String) → out ≡ err e → write_claims_error e ≡ unauthorized

abbrev failing : (A : Type 0) → String → Result A
failing A e = err e

err-injective : {A : Type 0} {d e : String} → failing A d ≡ err e → d ≡ e
err-injective h = cc

ok-IsTokenResult : {A : Type 0} (a : A) → IsTokenResult (ok a)
ok-IsTokenResult a = record { known = λ e h. absurd (ok≢err h) }

err-IsTokenResult :
    {A : Type 0} (message : String)
    → write_claims_error message ≡ unauthorized
    → IsTokenResult (failing A message)
err-IsTokenResult message known = record { known = λ e h. rw (← err-injective h) known }

then-IsTokenResult :
    {A : Type 0} (first : Result (Unit {0})) (next : Result A)
    → IsTokenResult first
    → IsTokenResult next
    → IsTokenResult (first >> next)
then-IsTokenResult (ok done) next h k = k
then-IsTokenResult (err e) next h k = err-IsTokenResult e (h.known e refl)

module _ (message : String) (known : write_claims_error message ≡ unauthorized) where
  refuse_if-IsTokenResult : (b : Bool) → IsTokenResult (refuse_if b message)
  refuse_if-IsTokenResult true = err-IsTokenResult message known
  refuse_if-IsTokenResult false = ok-IsTokenResult tt

  or_fail-IsTokenResult :
      {A B : Type 0} (found : Option A) (next : A → Result B)
      → ((a : A) → IsTokenResult (next a))
      → IsTokenResult (or_fail found message >>= next)
  or_fail-IsTokenResult none next h = err-IsTokenResult message known
  or_fail-IsTokenResult (some a) next h = h a

invalid_known : write_claims_error invalid_token ≡ unauthorized
unfolding write_claims_error
invalid_known = refl

expired_known : write_claims_error "登入權杖已過期" ≡ unauthorized
unfolding write_claims_error
expired_known = refl

not_found_known : write_claims_error "token session not found" ≡ unauthorized
unfolding write_claims_error
not_found_known = refl

invalid_if :
    {A : Type 0} (b : Bool) (next : Result A)
    → IsTokenResult next
    → IsTokenResult (refuse_if b invalid_token >> next)
invalid_if b next h =
    then-IsTokenResult (refuse_if b invalid_token) next
      (refuse_if-IsTokenResult invalid_token invalid_known b) h

check_claims-IsTokenResult : (codec : Codec) (c : Claims) → IsTokenResult (check_claims codec c)
unfolding check_claims
check_claims-IsTokenResult codec c =
    invalid_if (str_eq c.subject "" || str_eq (role_text c.role) "") _ (
      invalid_if (unknown_role c.role) _ (
        invalid_if (is_scheduler c.role && str_eq (trim_space c.line_id) "") _ (
          refuse_if-IsTokenResult "登入權杖已過期" expired_known
            (leb c.expires (unix_seconds codec.now)))))

verify_token-IsTokenResult :
    (codec : Codec) (secret token : String) → IsTokenResult (verify_token codec secret token)
unfolding verify_token
verify_token-IsTokenResult codec secret token = invalid_if (str_eq secret "" || str_eq token "") _ (
    or_fail-IsTokenResult invalid_token invalid_known (three_parts (split_on b'.' token)) _
      λ (header, payload, signature).
        invalid_if
          (not
            (str_eq (codec.sign secret (String.◌++◌ header (String.◌++◌ "." payload))) signature))
          _
          (or_fail-IsTokenResult invalid_token invalid_known (codec.decode payload) _ λ body.
            or_fail-IsTokenResult invalid_token invalid_known (codec.unmarshal body) _ λ c.
              then-IsTokenResult (check_claims codec c) (ok c) (check_claims-IsTokenResult codec c)
                (ok-IsTokenResult c)))

false≢true : false ≡ true → ⊥
false≢true h = cc

and_outside : (a b : Bool) → b ≡ false → a && b ≡ false
and_outside a b h = ground arith

module _ {ℓ} {R S : Type ℓ} (later : Server R S) where
  -- The claims are refused for a reason that the reply 401 stands for, and the store stays.
  record IsLoggedOut (s : R) (out : World R S × Result Claims) : Type ℓ where
    reason : String
    refused : out.1 ≡ err reason
    answer : write_claims_error reason ≡ unauthorized
    kept : out.0.store ≡ s

  verified-IsLoggedOut :
      (w : World R S) (c : Claims) (out : S × Result (Unit {0}))
      → out.1 ≡ err "token session not found"
      → IsLoggedOut w.store (verified w c out)
  verified-IsLoggedOut w c (s, ok live) h = absurd (ok≢err h)
  verified-IsLoggedOut w c (s, err e) h = record {
    reason = "token session not found";
    refused = ap (λ r. elim r [ ok live ↦ ok c | err e ↦ err e ]) h;
    answer = not_found_known;
    kept = refl;
  }

  session_of-IsLoggedOut :
      (w : World R S) (token : String) (out : Result Claims)
      → IsTokenResult out
      → ((c : Claims)
          → (later.token_sessions.verify token c w.sessions).1 ≡ err "token session not found")
      → IsLoggedOut w.store (session_of later w token out)
  session_of-IsLoggedOut w token (err e) valid gone = record {
    reason = e;
    refused = refl;
    answer = valid.known e refl;
    kept = refl;
  }
  session_of-IsLoggedOut w token (ok c) valid gone =
      verified-IsLoggedOut w c (later.token_sessions.verify token c w.sessions) (gone c)

  claims_or-IsLoggedOut :
      (r : HttpRequest) (w : World R S) (token : String)
      → bearer_token r.authorization ≡ ok token
      → ((c : Claims)
          → (later.token_sessions.verify token c w.sessions).1 ≡ err "token session not found")
      → IsLoggedOut w.store (claims_or later r w none)
  claims_or-IsLoggedOut r w token bears gone =
      elim (Bool-cases
        (not (str_eq later.auth_mode "local") && not (str_eq later.auth_mode "edge"))) [
          | inl odd ↦ rw (odd) (record {
            reason = invalid_token;
            refused = refl;
            answer = invalid_known;
            kept = refl;
          })
          | inr known ↦
              rw (known, bears)
                (session_of-IsLoggedOut w token (verify_token later.codec later.jwt_secret token)
                  (verify_token-IsTokenResult later.codec later.jwt_secret token) gone)
        ]

  admitted-IsLoggedOut :
      (r : HttpRequest) (s : R) (out : World R S × Result Claims)
      → IsLoggedOut s out
      → ((admitted later r out).1 ≡ unauthorized) × ((admitted later r out).0.store ≡ s)
  admitted-IsLoggedOut r s (w, ok c) h = absurd (ok≢err h.refused)
  admitted-IsLoggedOut r s (w, err e) h = (rw (err-injective h.refused) h.answer, h.kept)

  metrics_outside :
      (path : String) → has_prefix "/api/" path ≡ true → str_eq path "/metrics" ≡ false
  unfolding strip_prefix
  metrics_outside path api = elim (Bool-cases (str_eq path "/metrics")) [
    | inr other ↦ other
    | inl same ↦ absurd (
        false≢true (subst (λ p. has_prefix "/api/" p ≡ true) ((eq_iff path "/metrics").0 same) api))
  ]

  -- After a logout every request under /api/ with its token, but the login and OPTIONS, is answered
  -- with 401 and does not change the store, whatever the time and the secret, if the sessions do not
  -- know a token that they revoked.
  pub handle_logout-serve_http :
      (srv : Server R S) (out r : HttpRequest) (w : World R S) (token : String)
      → IsForgotten srv.token_sessions later.token_sessions
      → bearer_token out.authorization ≡ ok token
      → bearer_token r.authorization ≡ ok token
      → r.context ≡ none
      → str_eq r.method "OPTIONS" ≡ false
      → has_prefix "/api/" r.path ≡ true
      → is_public_api_path r ≡ false
      → let answered = serve_http later r (handle_logout srv out w).0 in
        (answered.1 ≡ unauthorized) × (answered.0.store ≡ w.store)
  unfolding handle_logout serve_http claims_from_request
  handle_logout-serve_http srv out r w token forgets left bears bare options api public =
      let v : World R S = (handle_logout srv out w).0 in
      let sessions : v.sessions ≡ srv.token_sessions.revoke token w.sessions =
        ap (λ b. revoke_token srv b w.sessions) left in
      let gone : (c : Claims)
          → (later.token_sessions.verify token c v.sessions).1 ≡ err "token session not found" =
        λ c. rw (sessions) (forgets.forgotten token c w.sessions) in
      let refused : IsLoggedOut w.store (claims_from_request later r v) =
        subst (λ x. IsLoggedOut w.store (claims_or later r v x)) (sym bare)
          (claims_or-IsLoggedOut r v token bears gone) in
      let answered = admitted-IsLoggedOut r w.store (claims_from_request later r v) refused in
      rw
        (
          serve_http,
          options,
          and_outside (str_eq r.method "GET") _ (metrics_outside r.path api),
          api,
          public,
        )
        answered
