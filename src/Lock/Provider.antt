-- ===== src/Lock/Provider.antt =====
-- The interfaces `Provider` and `Lock` of internal/lock/redis.go, over the state `L` in which the locks
-- are kept.
use woms.Base.{ℕ, Bool, List, String}

-- `redisLock`, less its provider; the value is in bytes.
pub record LineLock : Type 0 where
  pub key : String
  pub value : List ℕ

-- An error other than `ErrNotAcquired` says whether the context was over when it came.
pub data Attempt {ℓ} (A : Type ℓ) : Type ℓ where
  got : A → Attempt A
  not_acquired : Attempt A
  broken : Bool → String → Attempt A

pub record Provider {ℓ} (L : Type ℓ) : Type ℓ where
  -- A key, and a time to live.
  pub acquire : String → ℕ → L → L × Attempt LineLock
  pub refresh : LineLock → ℕ → L → L × Attempt (Unit {0})
  pub release : LineLock → L → L × Attempt (Unit {0})
