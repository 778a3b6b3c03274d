-- ===== src/Auth/RedisSessions.antt =====
-- `RedisTokenSessionStore` of internal/api/token_session.go, over the protocol of internal/lock/redis.go,
-- of which the file has its own copy. The server is a parameter, with what its documentation says of
-- the three commands; the address is set and the connection open. The clock is in nanoseconds.
use mathlib.Core.List.{append-nil}
use woms.Base.{
  ℕ, ◌≤◌, ◌-◌, ◌*◌, ◌/◌, ◌≡◌, refl, sym, ap, ◌∙◌, Bool, true, false, ◌||◌, not, none, some, List,
  [], ◌∷◌, ◌++◌, String, str_eq, ltb, arith, if◌then◌else◌,
}
use woms.Base.Results.{Result, ok, err}
use woms.Base.Text.{itoa}
use woms.Api.Requests.{Claims}
use woms.Lock.Protocol.{
  Bytes, crlf, Reply, value, missing, refused, io_error, read_value, write_arg,
}
use woms.Lock.Redis.{Server, bytes, same_bytes}
use woms.Lock.RoundTrip.{read_value-write_arg}

abbrev pub session_ttl : ℕ → Claims → ℕ
session_ttl now claims = claims.expires * 1000000000 - now

-- `int(ttl.Seconds())`, at least one.
unfoldable pub session_seconds : ℕ → ℕ
session_seconds ttl = if ltb (ttl / 1000000000) 1 then 1 else ttl / 1000000000

abbrev pub save_command : Bytes → ℕ → List Bytes
save_command key seconds = bytes "SET" ∷ key ∷ bytes "1" ∷ bytes "EX" ∷ bytes (itoa seconds) ∷ []

abbrev pub get_command : Bytes → List Bytes
get_command key = bytes "GET" ∷ key ∷ []

abbrev pub delete_command : Bytes → List Bytes
delete_command key = bytes "DEL" ∷ key ∷ []

abbrev pub saved : Reply → Result (Unit {0})
saved (value line) = ok tt
saved missing = err "token session not found"
saved (refused line) = err "redis error"
saved io_error = err "redis connection failed"

abbrev verified : Reply → Result (Unit {0})
verified (value line) = if same_bytes line (bytes "1") then ok tt else err "token session not found"
verified missing = err "token session not found"
verified (refused line) = err "redis error"
verified io_error = err "redis connection failed"

abbrev revoked : Reply → Result Bool
revoked (value line) = ok (same_bytes line (bytes "1"))
revoked missing = err "token session not found"
revoked (refused line) = err "redis error"
revoked io_error = err "redis connection failed"

-- The times to live that Redis takes here: a second at least, and those of a Go duration.
abbrev pub IsSeconds : ℕ → Type 0
IsSeconds seconds = (1 ≤ seconds) × (seconds ≤ 9223372036)

-- What the documentation of Redis says of `GET`: the reply is the value as a bulk string, or nil.
pub record AnswersGet {ℓ} {R : Type ℓ} (server : Server R) : Type ℓ where
  pub get_reply :
      (key : Bytes) (r : R)
      → (server.answer (get_command key) r).1
        ≡ elim (server.value_at key r) [ none ↦ bytes "$-1" ++ crlf | some held ↦ write_arg held ]

-- What it says of keys that do not exist: `DEL` leaves none, and a command makes no other key than that
-- of its `SET`. Keys may expire at any time.
pub record ForgetsSessions {ℓ} {R : Type ℓ} (server : Server R) : Type ℓ where
  pub answers : AnswersGet server
  pub delete_gone :
      (key : Bytes) (r : R) → server.value_at key (server.answer (delete_command key) r).0 ≡ none
  pub delete_other :
      (key : Bytes) (r : R) (read : Bytes)
      → server.value_at read r ≡ none
      → server.value_at read (server.answer (delete_command key) r).0 ≡ none
  pub get_other :
      (key : Bytes) (r : R) (read : Bytes)
      → server.value_at read r ≡ none
      → server.value_at read (server.answer (get_command key) r).0 ≡ none
  pub save_other :
      (key : Bytes) (seconds : ℕ) (r : R) (read : Bytes)
      → IsSeconds seconds
      → same_bytes read key ≡ false
      → server.value_at read r ≡ none
      → server.value_at read (server.answer (save_command key seconds) r).0 ≡ none

-- What it says of `SET … EX`, `GET` and `DEL` while no key expires.
pub record KeepsSessions {ℓ} {R : Type ℓ} (server : Server R) : Type ℓ where
  pub answers : AnswersGet server
  pub save_reply :
      (key : Bytes) (seconds : ℕ) (r : R)
      → IsSeconds seconds
      → (server.answer (save_command key seconds) r).1 ≡ bytes "+OK" ++ crlf
  pub save_value :
      (key : Bytes) (seconds : ℕ) (r : R) (read : Bytes)
      → IsSeconds seconds
      → server.value_at read (server.answer (save_command key seconds) r).0
        ≡ (if same_bytes read key then some (bytes "1") else server.value_at read r)
  pub get_value :
      (key : Bytes) (r : R) (read : Bytes)
      → server.value_at read (server.answer (get_command key) r).0 ≡ server.value_at read r
  pub delete_value :
      (key : Bytes) (r : R) (read : Bytes)
      → server.value_at read (server.answer (delete_command key) r).0
        ≡ (if same_bytes read key then none else server.value_at read r)

module _ {ℓ} {R : Type ℓ} (server : Server R) (session_key : String → Bytes) where
  unfoldable pub redis_command : List Bytes → R → R × Reply
  unfolding read_value
  redis_command args r =
      let (next, reply) = server.answer args r in (next, (read_value true reply).0)

  unfoldable pub redis_save : ℕ → String → Claims → R → R × Result (Unit {0})
  unfolding redis_command session_seconds
  redis_save now token claims r =
      if str_eq token "" || not (ltb now (claims.expires * 1000000000))
      then (r, err "token session not found")
      else let (next, reply) =
          redis_command
            (save_command (session_key token) (session_seconds (session_ttl now claims))) r in
        (next, saved reply)

  unfoldable pub redis_verify : String → R → R × Result (Unit {0})
  unfolding redis_command
  redis_verify token r =
      let (next, reply) = redis_command (get_command (session_key token)) r in
      (next, verified reply)

  unfoldable pub redis_revoke : String → R → R × Result Bool
  unfolding redis_command
  redis_revoke token r =
      let (next, reply) = redis_command (delete_command (session_key token)) r in
      (next, revoked reply)

read_session : read_value true (write_arg (bytes "1")) ≡ (value (bytes "1"), [])
read_session =
    ap (read_value true) (sym (append-nil (write_arg (bytes "1"))))
    ∙ read_value-write_arg true (bytes "1") [] (omega arith)

module _ {ℓ} {R : Type ℓ} (server : Server R) (session_key : String → Bytes)
    (answers : AnswersGet server) where
  open answers use {get_reply}

  pub verify-held :
      (token : String) (r : R)
      → server.value_at (session_key token) r ≡ some (bytes "1")
      → (redis_verify server session_key token r).1 ≡ ok tt
  unfolding redis_verify redis_command
  verify-held token r held =
      rw (get_reply (session_key token) r, held)
        (ap (λ (p : Reply × Bytes). verified p.0) read_session)

  pub verify-gone :
      (token : String) (r : R)
      → server.value_at (session_key token) r ≡ none
      → (redis_verify server session_key token r).1 ≡ err "token session not found"
  unfolding redis_verify redis_command
  verify-gone token r gone = rw (get_reply (session_key token) r, gone) refl
