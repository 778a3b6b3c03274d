-- ===== src/Lock/Exclusion.antt =====
-- What the locks of internal/lock/redis.go give to the workers.
use woms.Base.{
  ℕ, zero, suc, ◌≤◌, ◌≡◌, inl, inr, refl, sym, ap, ◌∙◌, Bool, false, ◌&&◌, Option, none, some, List,
  [], ◌∷◌, String, arith, Bool-cases, Option-cases, All, length,
}
use woms.Lock.Protocol.{Bytes, Reply, value, missing}
use woms.Lock.Provider.{LineLock, Attempt, got, not_acquired, broken}
use woms.Lock.Redis.{
  Server, Redis, bytes, same_bytes, set_command, send, acquire_with, acquire, refresh, release,
}
use woms.Lock.Documented.{
  IsTtl, IsRedis, holds, is_free, Call, acquires, refreshes, releases, Spares, is_got, calls, call,
  got-injective, not_acquired≢got, same_bytes-eq, same_bytes_refl, read-ok_reply, read-nil_reply,
}

module _ {ℓ} {R : Type ℓ} (server : Server R) (encode : String → Bytes)
    (laws : IsRedis server) where
  open laws use {set_reply, set_value, refresh_value, release_value}

  -- A test on a key that holds `val` and another that may be the same.
  same_key :
      (test : Option Bytes → Bool) (key other val : Bytes) (r : R)
      → server.value_at key r ≡ some val
      → test (some val) ≡ false
      → same_bytes key other && test (server.value_at other r) ≡ false
  same_key test key other val r held fails = elim (Bool-cases (same_bytes key other)) [
    | inl same ↦ rw (same, sym (same_bytes-eq key other same), held, fails) refl
    | inr differs ↦ rw differs refl
  ]

  -- A lock is kept over every call that spares it.
  call-keeps :
      (c : Call) (redis : Redis R) (key val : Bytes)
      → server.value_at key redis.server ≡ some val
      → Spares val c
      → server.value_at key (call server encode c redis).server ≡ some val
  unfolding call acquire acquire_with refresh release send
  call-keeps (acquires name zero) redis key val held spared = held
  call-keeps (acquires name (suc ttl)) redis key val held spared = keeps_random redis.randoms
    where
      keeps_random :
          (randoms : List Bytes)
          → server.value_at key
              (elim randoms as (λ l. Redis R × Attempt LineLock) [
                | [] ↦ (redis, broken false "no random value")
                | fresh ∷ rest ↦ acquire_with server encode name (suc ttl) fresh rest redis.server
              ]).0.server
            ≡ some val
      keeps_random [] = held
      keeps_random (fresh ∷ rest) =
          rw
            (
              set_value (encode name) fresh (suc ttl) redis.server key spared,
              same_key is_free key (encode name) val redis.server held refl,
            )
            held
  call-keeps (refreshes lock ttl) redis key val held spared =
      refresh_value (encode lock.key) lock.value ttl redis.server key spared ∙ held
  call-keeps (releases lock) redis key val held spared =
      rw
        (
          release_value (encode lock.key) lock.value redis.server key,
          same_key (holds lock.value) key (encode lock.key) val redis.server held spared,
        )
        held

  calls-keep :
      (cs : List Call) (redis : Redis R) (key val : Bytes)
      → server.value_at key redis.server ≡ some val
      → All (Spares val) cs
      → server.value_at key (calls server encode cs redis).server ≡ some val
  unfolding calls
  calls-keep [] redis key val held spared = held
  calls-keep (c ∷ cs) redis key val held spared =
      calls-keep cs (call server encode c redis) key val (call-keeps c redis key val held spared.0)
        spared.1

  -- `SET … NX` on a key that is held is answered by nil.
  send-held :
      (key fresh val : Bytes) (ttl : ℕ) (r : R)
      → server.value_at key r ≡ some val
      → IsTtl ttl
      → (send server encode (set_command key fresh ttl) r).1 ≡ missing
  unfolding send
  send-held key fresh val ttl r held timed =
      rw (set_reply key fresh ttl r timed, held) (ap (λ (p : Reply × Bytes). p.0) read-nil_reply)

  send-free :
      (key fresh : Bytes) (ttl : ℕ) (r : R)
      → server.value_at key r ≡ none
      → IsTtl ttl
      → (send server encode (set_command key fresh ttl) r).1 ≡ value (bytes "OK")
  unfolding send
  send-free key fresh ttl r free timed =
      rw (set_reply key fresh ttl r timed, free) (ap (λ (p : Reply × Bytes). p.0) read-ok_reply)

  -- A key that is held is not acquired.
  acquire-held :
      (name : String) (ttl : ℕ) (redis : Redis R) (val : Bytes)
      → server.value_at (encode name) redis.server ≡ some val
      → IsTtl ttl
      → is_got (acquire server encode name ttl redis).1 ≡ false
  unfolding acquire acquire_with
  acquire-held name zero redis val held timed = refl
  acquire-held name (suc ttl) redis val held timed = refused_any redis.randoms
    where
      refused_any :
          (randoms : List Bytes)
          → is_got
              (elim randoms as (λ l. Redis R × Attempt LineLock) [
                | [] ↦ (redis, broken false "no random value")
                | fresh ∷ rest ↦ acquire_with server encode name (suc ttl) fresh rest redis.server
              ]).1
            ≡ false
      refused_any [] = refl
      refused_any (fresh ∷ rest) =
          rw (send-held (encode name) fresh val (suc ttl) redis.server held timed) refl

  -- A lock that is acquired is held.
  acquire_with-got :
      (name : String) (ttl : ℕ) (fresh : Bytes) (rest : List Bytes) (r : R) (lock : LineLock)
      → IsTtl ttl
      → (acquire_with server encode name ttl fresh rest r).1 ≡ got lock
      → server.value_at (encode name) (acquire_with server encode name ttl fresh rest r).0.server
        ≡ some lock.value
  unfolding acquire_with
  acquire_with-got name ttl fresh rest r lock timed h =
      elim (Option-cases (server.value_at (encode name) r)) [
        | inl free ↦
            let same : got (record { key = name; value = fresh }) ≡ got lock =
              rw (send-free (encode name) fresh ttl r free timed) at h in
            rw
              (
                set_value (encode name) fresh ttl r (encode name) timed,
                same_bytes_refl (encode name),
                free,
              )
              (ap (λ (l : LineLock). some l.value) (got-injective same))
        | inr (val, held) ↦
            absurd (not_acquired≢got (rw (send-held (encode name) fresh val ttl r held timed) at h))
      ]

  acquire-got :
      (name : String) (ttl : ℕ) (redis : Redis R) (lock : LineLock)
      → IsTtl ttl
      → (acquire server encode name ttl redis).1 ≡ got lock
      → server.value_at (encode name) (acquire server encode name ttl redis).0.server
        ≡ some lock.value
  unfolding acquire
  acquire-got name zero redis lock timed h = cc
  acquire-got name (suc ttl) redis lock timed h = got_any redis.randoms h
    where
      got_any :
          (randoms : List Bytes)
          → (elim randoms as (λ l. Redis R × Attempt LineLock) [
            | [] ↦ (redis, broken false "no random value")
            | fresh ∷ rest ↦ acquire_with server encode name (suc ttl) fresh rest redis.server
          ]).1
            ≡ got lock
          → server.value_at
              (encode name)
              (elim randoms as (λ l. Redis R × Attempt LineLock) [
                | [] ↦ (redis, broken false "no random value")
                | fresh ∷ rest ↦ acquire_with server encode name (suc ttl) fresh rest redis.server
              ]).0.server
            ≡ some lock.value
      got_any [] k = cc
      got_any (fresh ∷ rest) k =
          acquire_with-got name (suc ttl) fresh rest redis.server lock timed k

  -- While a worker has the lock of a line, no other gets it: after an acquisition, and any calls that
  -- acquire and refresh locks and release locks of other values, the same key is not acquired. The
  -- times to live are at least a millisecond. That the key does not expire meanwhile is the server's
  -- behaviour assumed here.
  pub acquire_exclusive :
      (name : String) (ttl ttl2 : ℕ) (redis : Redis R) (lock : LineLock) (cs : List Call)
      → IsTtl ttl
      → IsTtl ttl2
      → (acquire server encode name ttl redis).1 ≡ got lock
      → All (Spares lock.value) cs
      → is_got
          (acquire server encode name ttl2
            (calls server encode cs (acquire server encode name ttl redis).0)).1
        ≡ false
  acquire_exclusive name ttl ttl2 redis lock cs timed timed2 h spared =
      acquire-held name ttl2 _ lock.value
        (calls-keep cs _ (encode name) lock.value (acquire-got name ttl redis lock timed h) spared)
        timed2

  -- A key that is held stays so, and is not acquired, over an attempt with a random value.
  pub acquire-taken :
      (name : String) (ttl : ℕ) (redis : Redis R) (val : Bytes) (left : ℕ)
      → IsTtl ttl
      → server.value_at (encode name) redis.server ≡ some val
      → suc left ≤ length redis.randoms
      → let out = acquire server encode name ttl redis in
        (out.1 ≡ not_acquired)
        × (server.value_at (encode name) out.0.server ≡ some val)
        × (left ≤ length out.0.randoms)
  unfolding acquire acquire_with send
  acquire-taken name zero redis val left timed held enough = absurd (omega (arith, timed.0))
  acquire-taken name (suc ttl) redis val left timed held enough = at_randoms redis.randoms enough
    where
      at_randoms :
          (randoms : List Bytes)
          → suc left ≤ length randoms
          → let out = (elim randoms as (λ l. Redis R × Attempt LineLock) [
            | [] ↦ (redis, broken false "no random value")
            | fresh ∷ rest ↦ acquire_with server encode name (suc ttl) fresh rest redis.server
          ]) in
            (out.1 ≡ not_acquired)
            × (server.value_at (encode name) out.0.server ≡ some val)
            × (left ≤ length out.0.randoms)
      at_randoms [] h = absurd (omega (arith, h))
      at_randoms (fresh ∷ rest) h = (
        rw (send-held (encode name) fresh val (suc ttl) redis.server held timed) refl,
        rw
            (
              set_value (encode name) fresh (suc ttl) redis.server (encode name) timed,
              same_key is_free (encode name) (encode name) val redis.server held refl,
            )
            held,
        omega (arith, h),
      )
