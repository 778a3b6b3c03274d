-- ===== src/Lock/Redis.antt =====
-- `RedisProvider` and `redisLock` of internal/lock/redis.go. The server is a parameter: it gives the
-- bytes of its reply to the arguments of a command. So are the encoding of a text in bytes and the
-- random values. The connection is open, and a broken one is a reply that cannot be read.
use woms.Base.{
  ℕ, zero, suc, ◌/◌, Bool, true, false, ◌&&◌, Option, List, [], ◌∷◌, String, ◌==◌, if◌then◌else◌,
}
use woms.Base.Text.{codes, itoa}
use woms.Lock.Protocol.{Bytes, Reply, value, missing, refused, io_error, read_value}
use woms.Lock.Provider.{LineLock, Attempt, got, not_acquired, broken, Provider}

pub record Server {ℓ} (R : Type ℓ) : Type ℓ where
  -- The new state, and the bytes of the reply.
  pub answer : List Bytes → R → R × Bytes
  -- `none` for a key that does not exist.
  pub value_at : Bytes → R → Option Bytes

-- The texts of the source, in bytes.
abbrev pub bytes : String → Bytes
bytes text = codes text

abbrev pub same_bytes : Bytes → Bytes → Bool
same_bytes [] [] = true
same_bytes (a ∷ as_a) (b ∷ as_b) = a == b && same_bytes as_a as_b
same_bytes _ _ = false

abbrev pub refresh_script : Bytes
refresh_script =
    bytes
      "if redis.call(\"GET\", KEYS[1]) == ARGV[1] then return redis.call(\"PEXPIRE\", KEYS[1], ARGV[2]) else return 0 end"

abbrev pub release_script : Bytes
release_script =
    bytes
      "if redis.call(\"GET\", KEYS[1]) == ARGV[1] then return redis.call(\"DEL\", KEYS[1]) else return 0 end"

-- Milliseconds of a duration in nanoseconds, in decimal.
abbrev pub milliseconds : ℕ → Bytes
milliseconds ttl = bytes (itoa (ttl / 1000000))

abbrev pub set_command : Bytes → Bytes → ℕ → List Bytes
set_command key val ttl = bytes "SET" ∷ key ∷ val ∷ bytes "NX" ∷ bytes "PX" ∷ milliseconds ttl ∷ []

abbrev pub refresh_command : Bytes → Bytes → ℕ → List Bytes
refresh_command key val ttl =
    bytes "EVAL" ∷ refresh_script ∷ bytes "1" ∷ key ∷ val ∷ milliseconds ttl ∷ []

abbrev pub release_command : Bytes → Bytes → List Bytes
release_command key val = bytes "EVAL" ∷ release_script ∷ bytes "1" ∷ key ∷ val ∷ []

-- The server, and the random values to come.
pub record Redis {ℓ} (R : Type ℓ) : Type ℓ where
  pub server : R
  pub randoms : List Bytes

module _ {ℓ} {R : Type ℓ} (server : Server R) (encode : String → Bytes) where
  -- `command`: the reply, read.
  unfoldable pub send : List Bytes → R → R × Reply
  unfolding read_value
  send args r = let (next, reply) = server.answer args r in (next, (read_value false reply).0)

  -- What `Acquire` makes of a reply.
  abbrev pub acquired : LineLock → Reply → Attempt LineLock
  acquired lock (value line) = if same_bytes line (bytes "OK") then got lock else not_acquired
  acquired lock missing = not_acquired
  acquired lock (refused line) = broken false "redis error"
  acquired lock io_error = broken false "redis connection failed"

  unfoldable pub acquire_with : String → ℕ → Bytes → List Bytes → R → Redis R × Attempt LineLock
  unfolding send
  acquire_with key ttl val randoms r =
      let (next, reply) = send (set_command (encode key) val ttl) r in
      (
        record { server = next; randoms = randoms },
        acquired (record { key = key; value = val }) reply,
      )

  unfoldable pub acquire : String → ℕ → Redis R → Redis R × Attempt LineLock
  unfolding acquire_with
  acquire key zero redis = (redis, broken false "lock ttl must be positive")
  acquire key (suc ttl) redis = elim redis.randoms [
    | [] ↦ (redis, broken false "no random value")
    | val ∷ randoms ↦ acquire_with key (suc ttl) val randoms redis.server
  ]

  abbrev refreshed : Reply → Attempt (Unit {0})
  refreshed (value line) = if same_bytes line (bytes "1") then got tt else not_acquired
  refreshed missing = not_acquired
  refreshed (refused line) = broken false "redis error"
  refreshed io_error = broken false "redis connection failed"

  unfoldable pub refresh : LineLock → ℕ → Redis R → Redis R × Attempt (Unit {0})
  unfolding send
  refresh lock ttl redis =
      let (next, reply) = send (refresh_command (encode lock.key) lock.value ttl) redis.server in
      (record redis { server = next }, refreshed reply)

  abbrev released : Reply → Attempt (Unit {0})
  released (value line) = got tt
  released missing = not_acquired
  released (refused line) = broken false "redis error"
  released io_error = broken false "redis connection failed"

  unfoldable pub release : LineLock → Redis R → Redis R × Attempt (Unit {0})
  unfolding send
  release lock redis =
      let (next, reply) = send (release_command (encode lock.key) lock.value) redis.server in
      (record redis { server = next }, released reply)

  abbrev pub redis_provider : Provider (Redis R)
  redis_provider = record { acquire = acquire; refresh = refresh; release = release }
