-- ===== src/Lock/Documented.antt =====
-- What the locks of internal/lock/redis.go rely on, and the calls on them.
use woms.Base.{
  ℕ, ◌≤◌, ◌<◌, ◌≡◌, refl, Bool, true, false, ◌&&◌, Option, none, some, List, [], ◌∷◌, ◌++◌, String,
  if◌then◌else◌, arith,
}
use woms.Lock.Protocol.{Bytes, crlf, value, missing, read_value}
use woms.Lock.Provider.{LineLock, Attempt, got, not_acquired, broken}
use woms.Lock.Redis.{
  Server, Redis, bytes, same_bytes, set_command, refresh_command, release_command, acquire, refresh,
  release,
}

abbrev pub ok_reply : Bytes
ok_reply = bytes "+OK" ++ crlf

abbrev pub nil_reply : Bytes
nil_reply = bytes "$-1" ++ crlf

abbrev pub holds : Bytes → Option Bytes → Bool
holds val none = false
holds val (some held) = same_bytes held val

abbrev pub is_free : Option Bytes → Bool
is_free none = true
is_free (some held) = false

-- The times to live that Redis takes: a whole millisecond at least, and a Go duration.
abbrev pub IsTtl : ℕ → Type 0
IsTtl ttl = (1000000 ≤ ttl) × (ttl < 9223372036854775808)

-- What the documentation of Redis says of the commands that the source sends, while no key expires:
-- `SET … NX` writes a key that does not exist, and replies OK or nil; a script runs at once, so the key
-- is renewed or deleted only for the value that it holds.
pub record IsRedis {ℓ} {R : Type ℓ} (server : Server R) : Type ℓ where
  pub set_reply :
      (key val : Bytes) (ttl : ℕ) (r : R)
      → IsTtl ttl
      → (server.answer (set_command key val ttl) r).1
        ≡ (if is_free (server.value_at key r) then ok_reply else nil_reply)
  pub set_value :
      (key val : Bytes) (ttl : ℕ) (r : R) (read : Bytes)
      → IsTtl ttl
      → server.value_at read (server.answer (set_command key val ttl) r).0 ≡ (
          if same_bytes read key && is_free (server.value_at key r)
          then some val
          else server.value_at read r)
  pub refresh_value :
      (key val : Bytes) (ttl : ℕ) (r : R) (read : Bytes)
      → IsTtl ttl
      → server.value_at read (server.answer (refresh_command key val ttl) r).0
        ≡ server.value_at read r
  pub release_value :
      (key val : Bytes) (r : R) (read : Bytes)
      → server.value_at read (server.answer (release_command key val) r).0 ≡ (
          if same_bytes read key && holds val (server.value_at key r)
          then none
          else server.value_at read r)

-- The calls of the workers on the locks.
pub data Call : Type 0 where
  acquires : String → ℕ → Call
  refreshes : LineLock → ℕ → Call
  releases : LineLock → Call

-- Every call with a time to live that Redis takes, but the release of a lock with this value.
abbrev pub Spares : Bytes → Call → Type 0
Spares val (acquires key ttl) = IsTtl ttl
Spares val (refreshes lock ttl) = IsTtl ttl
Spares val (releases lock) = same_bytes val lock.value ≡ false

abbrev pub is_got {ℓ} : {A : Type ℓ} → Attempt A → Bool
is_got (got a) = true
is_got not_acquired = false
is_got (broken over text) = false

pub got-injective : {A : Type 0} {a b : A} → got a ≡ got b → a ≡ b
got-injective h = cc

pub not_acquired≢got : {A : Type 0} {a : A} → not_acquired ≡ got a → ⊥
not_acquired≢got h = cc

pub same_bytes-eq : (a b : Bytes) → same_bytes a b ≡ true → a ≡ b
same_bytes-eq [] [] h = refl
same_bytes-eq [] (b ∷ bs) h = cc
same_bytes-eq (a ∷ as_a) [] h = cc
same_bytes-eq (a ∷ as_a) (b ∷ bs) h = ground (arith, h, same_bytes-eq as_a bs)

pub same_bytes_refl : (a : Bytes) → same_bytes a a ≡ true
same_bytes_refl [] = refl
same_bytes_refl (a ∷ as_a) = ground (arith, same_bytes_refl as_a)

pub read-ok_reply : read_value false ok_reply ≡ (value (bytes "OK"), [])
unfolding read_value
read-ok_reply = refl

pub read-nil_reply : read_value false nil_reply ≡ (missing, [])
unfolding read_value
read-nil_reply = refl

module _ {ℓ} {R : Type ℓ} (server : Server R) (encode : String → Bytes) where
  unfoldable pub call : Call → Redis R → Redis R
  unfolding acquire refresh release
  call (acquires key ttl) redis = (acquire server encode key ttl redis).0
  call (refreshes lock ttl) redis = (refresh server encode lock ttl redis).0
  call (releases lock) redis = (release server encode lock redis).0

  unfoldable pub calls : List Call → Redis R → Redis R
  unfolding call
  calls [] redis = redis
  calls (c ∷ cs) redis = calls cs (call c redis)
