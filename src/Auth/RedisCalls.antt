-- ===== src/Auth/RedisCalls.antt =====
-- The calls on `RedisTokenSessionStore` of internal/api/token_session.go, one after the other.
use woms.Base.{
  ℕ, ◌+◌, ◌*◌, ◌<◌, ◌≡◌, refl, ap, ◌∙◌, ◌⊎◌, inl, inr, true, false, ◌||◌, not, Option, none, some,
  List, [], ◌∷◌, ◌++◌, All, String, str_eq, ltb, arith, if◌then◌else◌, Bool-cases,
}
use woms.Base.Results.{ok, err}
use woms.Api.Requests.{Claims}
use woms.Lock.Protocol.{Bytes, crlf, Reply, value, read_value}
use woms.Lock.Redis.{Server, bytes, same_bytes}
use woms.Lock.Documented.{same_bytes_refl}
use woms.Auth.RedisSessions.{
  IsSeconds, ForgetsSessions, KeepsSessions, session_ttl, session_seconds, saved, redis_command,
  redis_save, redis_verify, redis_revoke, verify-held, verify-gone,
}

pub data RedisCall : Type 0 where
  saves : ℕ → String → Claims → RedisCall
  verifies : String → RedisCall
  revokes : String → RedisCall

-- The claims expire within the range of a Go duration.
abbrev pub IsNear : ℕ → Claims → Type 0
IsNear now claims = claims.expires * 1000000000 < now + 9223372036854775808

session_seconds-IsSeconds :
    (now : ℕ) (claims : Claims)
    → IsNear now claims
    → IsSeconds (session_seconds (session_ttl now claims))
unfolding session_seconds
session_seconds-IsSeconds now claims near = (ground (arith, near), ground (arith, near))

read-saved : read_value true (bytes "+OK" ++ crlf) ≡ (value (bytes "OK"), [])
unfolding read_value
read-saved = refl

true≢false : true ≡ false → ⊥
true≢false h = cc

module _ {ℓ} {R : Type ℓ} (server : Server R) (session_key : String → Bytes) where
  unfoldable pub redis_call : RedisCall → R → R
  unfolding redis_save redis_verify redis_revoke
  redis_call (saves now token claims) r = (redis_save server session_key now token claims r).0
  redis_call (verifies token) r = (redis_verify server session_key token r).0
  redis_call (revokes token) r = (redis_revoke server session_key token r).0

  unfoldable pub redis_calls : List RedisCall → R → R
  unfolding redis_call
  redis_calls [] r = r
  redis_calls (c ∷ cs) r = redis_calls cs (redis_call c r)

module _ (session_key : String → Bytes) (token : String) where
  -- Every call but one that saves the token again.
  abbrev pub Unsaved : RedisCall → Type 0
  Unsaved (saves now other claims) =
      IsNear now claims × (same_bytes (session_key token) (session_key other) ≡ false)
  Unsaved (verifies other) = Unit
  Unsaved (revokes other) = Unit

  -- Every call but one that revokes the token.
  abbrev pub Unrevoked : RedisCall → Type 0
  Unrevoked (saves now other claims) = IsNear now claims
  Unrevoked (verifies other) = Unit
  Unrevoked (revokes other) = same_bytes (session_key token) (session_key other) ≡ false

module _ {ℓ} {R : Type ℓ} (server : Server R) (session_key : String → Bytes)
    (laws : ForgetsSessions server) where
  open laws use {answers, delete_gone, delete_other, get_other, save_other}

  abbrev IsGone : String → R → Type 0
  IsGone token r = server.value_at (session_key token) r ≡ none

  save-IsGone :
      (now : ℕ) (token other : String) (claims : Claims) (r : R)
      → IsNear now claims
      → same_bytes (session_key token) (session_key other) ≡ false
      → IsGone token r
      → IsGone token (redis_save server session_key now other claims r).0
  unfolding redis_save redis_command
  save-IsGone now token other claims r near differs gone =
      elim (Bool-cases (str_eq other "" || not (ltb now (claims.expires * 1000000000)))) [
        | inl refused ↦ rw (redis_save, refused) gone
        | inr live ↦
            rw (redis_save, live)
              (save_other (session_key other) (session_seconds (session_ttl now claims)) r
                (session_key token) (session_seconds-IsSeconds now claims near) differs gone)
      ]

  redis_call-Unsaved :
      (token : String) (c : RedisCall) (r : R)
      → Unsaved session_key token c
      → IsGone token r
      → IsGone token (redis_call server session_key c r)
  unfolding redis_call redis_verify redis_revoke redis_command
  redis_call-Unsaved token (saves now other claims) r unsaved gone =
      save-IsGone now token other claims r unsaved.0 unsaved.1 gone
  redis_call-Unsaved token (verifies other) r unsaved gone =
      get_other (session_key other) r (session_key token) gone
  redis_call-Unsaved token (revokes other) r unsaved gone =
      delete_other (session_key other) r (session_key token) gone

  redis_calls-Unsaved :
      (token : String) (cs : List RedisCall) (r : R)
      → All (Unsaved session_key token) cs
      → IsGone token r
      → IsGone token (redis_calls server session_key cs r)
  unfolding redis_calls
  redis_calls-Unsaved token [] r unsaved gone = gone
  redis_calls-Unsaved token (c ∷ cs) r unsaved gone =
      redis_calls-Unsaved token cs (redis_call server session_key c r) unsaved.1
        (redis_call-Unsaved token c r unsaved.0 gone)

  -- After a revocation in Redis, whatever calls follow and whatever keys expire, the token is refused,
  -- as long as none of the calls saves the token (or one with the same key) again. The sessions that are
  -- saved expire within the range of a Go duration.
  pub redis_revoke-redis_verify :
      (token : String) (cs : List RedisCall) (r : R)
      → All (Unsaved session_key token) cs
      → (redis_verify server session_key token
          (redis_calls server session_key cs (redis_revoke server session_key token r).0)).1
        ≡ err "token session not found"
  unfolding redis_revoke redis_command
  redis_revoke-redis_verify token cs r unsaved =
      verify-gone server session_key answers token _
        (redis_calls-Unsaved token cs _ unsaved (delete_gone (session_key token) r))

module _ {ℓ} {R : Type ℓ} (server : Server R) (session_key : String → Bytes)
    (laws : KeepsSessions server) where
  open laws use {answers, save_reply, save_value, get_value, delete_value}

  -- What a call leaves under the key of a token.
  abbrev held_at : String → R → Option Bytes
  held_at token r = server.value_at (session_key token) r

  save-held_at :
      (now : ℕ) (token other : String) (claims : Claims) (r : R)
      → IsNear now claims
      → (held_at token (redis_save server session_key now other claims r).0 ≡ held_at token r)
        ⊎ ((held_at token (redis_save server session_key now other claims r).0 ≡ some (bytes "1"))
            × (same_bytes (session_key token) (session_key other) ≡ true))
  unfolding redis_save redis_command
  save-held_at now token other claims r near =
      elim (Bool-cases (str_eq other "" || not (ltb now (claims.expires * 1000000000)))) [
        | inl refused ↦ inl (rw (redis_save, refused) refl)
        | inr live ↦
            let written =
              save_value (session_key other) (session_seconds (session_ttl now claims)) r
                (session_key token) (session_seconds-IsSeconds now claims near) in
            elim (Bool-cases (same_bytes (session_key token) (session_key other))) [
              | inl same ↦ inr (rw (redis_save, live, written, same) refl, same)
              | inr differs ↦ inl (rw (redis_save, live, written, differs) refl)
            ]
      ]

  delete-held_at :
      (token other : String) (r : R)
      → held_at token (redis_revoke server session_key other r).0
        ≡ (if same_bytes (session_key token) (session_key other) then none else held_at token r)
  unfolding redis_revoke redis_command
  delete-held_at token other r = delete_value (session_key other) r (session_key token)

  redis_call-Unrevoked :
      (token : String) (c : RedisCall) (r : R)
      → Unrevoked session_key token c
      → held_at token r ≡ some (bytes "1")
      → held_at token (redis_call server session_key c r) ≡ some (bytes "1")
  unfolding redis_call redis_verify redis_command
  redis_call-Unrevoked token (saves now other claims) r near held =
      elim (save-held_at now token other claims r near) [
        | inl kept ↦ kept ∙ held
        | inr (written, same) ↦ written
      ]
  redis_call-Unrevoked token (verifies other) r unrevoked held =
      get_value (session_key other) r (session_key token) ∙ held
  redis_call-Unrevoked token (revokes other) r differs held =
      rw (delete-held_at token other r, differs) held

  redis_calls-Unrevoked :
      (token : String) (cs : List RedisCall) (r : R)
      → All (Unrevoked session_key token) cs
      → held_at token r ≡ some (bytes "1")
      → held_at token (redis_calls server session_key cs r) ≡ some (bytes "1")
  unfolding redis_calls
  redis_calls-Unrevoked token [] r unrevoked held = held
  redis_calls-Unrevoked token (c ∷ cs) r unrevoked held =
      redis_calls-Unrevoked token cs (redis_call server session_key c r) unrevoked.1
        (redis_call-Unrevoked token c r unrevoked.0 held)

  -- A token that has not expired is saved in Redis without an error, and whatever calls follow, it is
  -- accepted, as long as none of them revokes the token (or one with the same key) and no key expires
  -- in Redis. The sessions that are saved expire within the range of a Go duration.
  pub redis_save-redis_verify :
      (now : ℕ) (token : String) (claims : Claims) (cs : List RedisCall) (r : R)
      → str_eq token "" ≡ false
      → ltb now (claims.expires * 1000000000) ≡ true
      → IsNear now claims
      → All (Unrevoked session_key token) cs
      → let after = redis_save server session_key now token claims r in
        (after.1 ≡ ok tt)
        × ((redis_verify server session_key token (redis_calls server session_key cs after.0)).1
            ≡ ok tt)
  unfolding redis_save redis_command
  redis_save-redis_verify now token claims cs r named live near unrevoked =
      let seconds = session_seconds (session_ttl now claims) in
      let timed = session_seconds-IsSeconds now claims near in
      let written = save_value (session_key token) seconds r (session_key token) timed in
      let held : held_at token (redis_save server session_key now token claims r).0
          ≡ some (bytes "1") =
        rw (redis_save, named, live, written, same_bytes_refl (session_key token)) refl in
      (
        rw (redis_save, named, live, save_reply (session_key token) seconds r timed)
            (ap (λ (p : Reply × Bytes). saved p.0) read-saved),
        verify-held server session_key answers token _
            (redis_calls-Unrevoked token cs _ unrevoked held),
      )
