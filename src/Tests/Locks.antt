-- ===== src/Tests/Locks.antt =====
-- A Redis that keeps its keys in a function, the theorems about internal/lock/redis.go and about the
-- sessions of internal/api/token_session.go at it.
use woms.Base.{
  ℕ, ◌≡◌, refl, Bool, true, false, ◌&&◌, List, [], ◌∷◌, ◌++◌, Option, none, some, arith,
  if◌then◌else◌,
}
use woms.Base.Results.{ok, err}
use woms.Base.Text.{codes}
use woms.Domain.{sales}
use woms.Api.Requests.{Claims}
use woms.Auth.RedisSessions.{
  AnswersGet, ForgetsSessions, KeepsSessions, redis_save, redis_verify, redis_revoke,
}
use woms.Auth.RedisCalls.{
  RedisCall, saves, verifies, revokes, redis_calls, redis_revoke-redis_verify,
  redis_save-redis_verify,
}
use woms.Lock.Protocol.{Bytes, crlf, value, read_value, write_arg}
use woms.Lock.RoundTrip.{read_value-write_arg}
use woms.Lock.Provider.{LineLock}
use woms.Lock.Redis.{Server, Redis, bytes, same_bytes, refresh_script, acquire}
use woms.Lock.Documented.{
  IsTtl, IsRedis, ok_reply, nil_reply, holds, is_free, Call, acquires, refreshes, releases, calls,
  is_got,
}
use woms.Lock.Exclusion.{acquire_exclusive}

abbrev pub Keys : Type 0
Keys = Bytes → Option Bytes

abbrev pub put : Bytes → Option Bytes → Keys → Keys
put key held keys = λ read. if same_bytes read key then held else keys read

abbrev when : Bool → Bytes → Option Bytes → Keys → Keys
when test key held keys = λ read. if same_bytes read key && test then held else keys read

abbrev found : Option Bytes → Bytes
found none = bytes "$-1" ++ crlf
found (some held) = write_arg held

abbrev redis_answer : List Bytes → Keys → Keys × Bytes
redis_answer (c ∷ key ∷ []) keys =
    if same_bytes c (bytes "GET")
    then (keys, found (keys key))
    else (put key none keys, bytes ":1" ++ crlf)
redis_answer (c ∷ a ∷ b ∷ d ∷ e ∷ rest) keys =
    if same_bytes c (bytes "SET")
    then (if same_bytes d (bytes "NX")
        then (
          when (is_free (keys a)) a (some b) keys,
          if is_free (keys a) then ok_reply else nil_reply,
        )
        else (put a (some b) keys, bytes "+OK" ++ crlf))
    else if same_bytes a refresh_script
    then (keys, bytes ":1" ++ crlf)
    else (when (holds e (keys d)) d none keys, bytes ":1" ++ crlf)
redis_answer other keys = (keys, bytes "-ERR" ++ crlf)

abbrev pub server : Server Keys
server = record { answer = redis_answer; value_at = λ key keys. keys key }

abbrev pub redis_laws : IsRedis server
redis_laws = record {
  set_reply = λ key val ttl r timed. refl;
  set_value = λ key val ttl r read timed. refl;
  refresh_value = λ key val ttl r read timed. refl;
  release_value = λ key val r read. refl;
}

same_key : (key : Bytes) → same_bytes key key ≡ true
same_key [] = refl
same_key (c ∷ key) = ground (arith, same_key key)

abbrev answers : AnswersGet server
answers = record { get_reply = λ key r. refl }

bytes_refl : (key : Bytes) → same_bytes key key ≡ true
bytes_refl [] = refl
bytes_refl (c ∷ key) = ground (arith, bytes_refl key)

forgets : ForgetsSessions server
forgets = record {
  answers = answers;
  delete_gone = λ key r. rw (bytes_refl key) refl;
  delete_other = λ key r read gone. ground (arith, gone);
  get_other = λ key r read gone. gone;
  save_other = λ key seconds r read timed differs gone. rw (differs) gone;
}

abbrev session_laws : KeepsSessions server
session_laws = record {
  save_reply = λ key seconds r timed. refl;
  save_value = λ key seconds r read timed. refl;
  answers = answers;
  get_value = λ key r read. refl;
  delete_value = λ key r read. refl;
}

abbrev pub no_keys : Keys
no_keys = λ key. none

abbrev two_randoms : Redis Keys
two_randoms = record { server = no_keys; randoms = bytes "r1" ∷ bytes "r2" ∷ bytes "r3" ∷ [] }

abbrev first_lock : LineLock
first_lock = record { key = "line:A"; value = bytes "r1" }

abbrev second_lock : LineLock
second_lock = record { key = "line:A"; value = bytes "r2" }

abbrev second : ℕ
second = 1000000000

abbrev other_calls : List Call
other_calls = acquires "line:A" second ∷ refreshes second_lock second ∷ releases second_lock ∷ []

timed : IsTtl second
timed = (omega arith, omega arith)

acquire_exclusive_example :
    is_got
      (acquire server codes "line:A" second
        (calls server codes other_calls (acquire server codes "line:A" second two_randoms).0)).1
    ≡ false
unfolding acquire
acquire_exclusive_example =
    acquire_exclusive server codes redis_laws "line:A" second second two_randoms first_lock
      other_calls timed timed refl (timed, (timed, (refl, tt)))

read_value-write_arg_example :
    read_value true (write_arg (bytes "a\r\nb") ++ bytes ":1")
    ≡ (value (bytes "a\r\nb"), bytes ":1")
read_value-write_arg_example = read_value-write_arg true (bytes "a\r\nb") (bytes ":1") (omega arith)

abbrev ada_claims : Claims
ada_claims = record { subject = "user-ada"; role = sales; line_id = ""; expires = 100 }

-- Another login, a verification and another logout.
abbrev later_calls : List RedisCall
later_calls = saves 6 "t2" ada_claims ∷ verifies "t1" ∷ revokes "t2" ∷ []

redis_save-redis_verify_example :
    let after = redis_save server codes 5 "t1" ada_claims no_keys in
    (after.1 ≡ ok tt)
    × ((redis_verify server codes "t1" (redis_calls server codes later_calls after.0)).1 ≡ ok tt)
redis_save-redis_verify_example =
    redis_save-redis_verify server codes session_laws 5 "t1" ada_claims later_calls no_keys refl
      refl (omega arith) (omega arith, (tt, (refl, tt)))

redis_revoke-redis_verify_example :
    (redis_verify server codes "t1"
      (redis_calls server codes later_calls (redis_revoke server codes "t1" no_keys).0)).1
    ≡ err "token session not found"
redis_revoke-redis_verify_example =
    redis_revoke-redis_verify server codes forgets "t1" later_calls no_keys
      ((omega arith, refl), (tt, (tt, tt)))
