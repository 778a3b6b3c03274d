-- ===== src/Worker/Config.antt =====
-- The configuration of cmd/scheduler-worker/main.go: the environment, with its defaults, and what a
-- worker with a database refuses to run with.
use woms.Base.{
  ℕ, zero, suc, ◌+◌, ◌*◌, ◌≡◌, ◌↔◌, Bool, true, false, ◌&&◌, ◌||◌, not, List, [], ◌∷◌, String,
  str_eq, leb, ltb, ◌==◌, arith, if◌then◌else◌, map,
}
use woms.Base.Int.{ℤ, pos, negsuc}
use woms.Base.Results.{Result, ok, err, ◌>>=◌, ◌>>◌, refuse_if}
use woms.Base.Text.{codes, trim_space}
use woms.Worker.Delivery.{WorkerJobConfig}
use Prim.Native.String
use woms.Worker.Environment.{Lookup, config_string, config_duration, config_int}

-- `strings.ToLower`, as far as its result can be one of the words below.
abbrev lower_code : ℕ → ℕ
lower_code c = if leb b'A' c && leb c b'Z' then c + 32 else if c == 0x130 then b'i' else c

abbrev same_codes : List ℕ → List ℕ → Bool
same_codes [] [] = true
same_codes (a ∷ as_a) (b ∷ as_b) = a == b && same_codes as_a as_b
same_codes _ _ = false

unfoldable is_word : List ℕ → List String → Bool
is_word value [] = false
is_word value (word ∷ words) = same_codes value (codes word) || is_word value words

-- `kafka.FirstOffset` and `kafka.LastOffset`
pub data StartOffset : Type 0 where
  first_offset last_offset : StartOffset

unfoldable pub config_start_offset : String → Result StartOffset
unfolding trim_space is_word
config_start_offset value =
    let word = map lower_code (codes (trim_space value)) in
    if is_word word ("earliest" ∷ "first" ∷ "oldest" ∷ [])
    then ok first_offset
    else if is_word word ("" ∷ "latest" ∷ "last" ∷ "newest" ∷ [])
    then ok last_offset
    else err
        "WORKER_START_OFFSET must be one of earliest, first, oldest, latest, last, newest, or empty"

pub record WorkerConfig : Type 0 where
  pub brokers : String
  pub topic : String
  pub group : String
  pub database_url : String
  pub redis_addr : String
  pub min_job_duration : ℤ
  pub max_retries : ℕ
  pub lock_ttl : ℤ
  pub lock_renew_interval : ℤ
  pub lock_timeout : ℤ
  pub backfill_interval : ℤ
  pub dependency_timeout : ℤ
  pub dependency_interval : ℤ
  pub start_offset : StartOffset

-- Seconds as a duration.
abbrev seconds : ℕ → ℤ
seconds n = pos (n * 1000000000)

unfoldable pub load_worker_config : Lookup → Result WorkerConfig
unfolding config_string config_duration config_int config_start_offset
load_worker_config lookup = do
  min_job_duration ← config_duration lookup "WORKER_MIN_JOB_DURATION_MS" (seconds 0)
  max_retries ← config_int lookup "WORKER_MAX_RETRIES" 3
  lock_ttl ← config_duration lookup "WORKER_LOCK_TTL_MS" (seconds 15)
  lock_renew_interval ← config_duration lookup "WORKER_LOCK_RENEW_INTERVAL_MS" (seconds 5)
  lock_timeout ← config_duration lookup "WORKER_LOCK_TIMEOUT_MS" (seconds 10)
  backfill_interval ← config_duration lookup "WORKER_BACKFILL_INTERVAL_MS" (seconds 5)
  dependency_timeout ← config_duration lookup "WORKER_DEPENDENCY_RETRY_TIMEOUT_MS" (seconds 120)
  dependency_interval ← config_duration lookup "WORKER_DEPENDENCY_RETRY_INTERVAL_MS" (seconds 2)
  start_offset ← config_start_offset (config_string lookup "WORKER_START_OFFSET" "latest")
  ok (record {
    brokers = config_string lookup "KAFKA_BROKERS" "kafka:9092";
    topic = config_string lookup "KAFKA_SCHEDULE_TOPIC" "woms.schedule.jobs";
    group = config_string lookup "KAFKA_CONSUMER_GROUP" "woms-scheduler-workers";
    database_url = config_string lookup "DATABASE_URL" "";
    redis_addr = config_string lookup "REDIS_ADDR" "";
    min_job_duration = min_job_duration;
    max_retries = max_retries;
    lock_ttl = lock_ttl;
    lock_renew_interval = lock_renew_interval;
    lock_timeout = lock_timeout;
    backfill_interval = backfill_interval;
    dependency_timeout = dependency_timeout;
    dependency_interval = dependency_interval;
    start_offset = start_offset;
  })

-- `d > 0`, and `a < b` of durations.
abbrev pub is_positive : ℤ → Bool
is_positive (pos zero) = false
is_positive (pos (suc n)) = true
is_positive (negsuc n) = false

abbrev pub less : ℤ → ℤ → Bool
less (pos a) (pos b) = ltb a b
less (pos a) (negsuc b) = false
less (negsuc a) (pos b) = true
less (negsuc a) (negsuc b) = ltb b a

unfoldable pub validate_lock_config : ℤ → ℤ → ℤ → Result (Unit {0})
validate_lock_config lock_ttl lock_renew_interval lock_timeout = do
  refuse_if (not (is_positive lock_ttl)) "WORKER_LOCK_TTL_MS must be greater than zero"
  refuse_if (not (is_positive lock_timeout)) "WORKER_LOCK_TIMEOUT_MS must be greater than zero"
  refuse_if (not (is_positive lock_renew_interval) || not (less lock_renew_interval lock_ttl))
      "WORKER_LOCK_RENEW_INTERVAL_MS must be greater than zero and less than WORKER_LOCK_TTL_MS"
  ok tt

abbrev prefix_error : String → Result (Unit {0}) → Result (Unit {0})
prefix_error prefix (ok valid) = ok tt
prefix_error prefix (err e) = err (String.◌++◌ prefix e)

unfoldable pub validate_database_mode_config : WorkerConfig → Result (Unit {0})
unfolding validate_lock_config
validate_database_mode_config config = do
  prefix_error "invalid Redis lock configuration: "
      (validate_lock_config config.lock_ttl config.lock_renew_interval config.lock_timeout)
  refuse_if (not (is_positive config.backfill_interval))
      "WORKER_BACKFILL_INTERVAL_MS must be greater than zero when DATABASE_URL is set"
  refuse_if (str_eq config.redis_addr "")
      "REDIS_ADDR is required when DATABASE_URL is set; scheduler-worker refuses to run without Redis line locks"
  ok tt

-- A duration that is not positive has the same effect as none.
abbrev duration_or_none : ℤ → ℕ
duration_or_none (pos n) = n
duration_or_none (negsuc n) = 0

unfoldable pub worker_job_config_from_config : WorkerConfig → WorkerJobConfig
worker_job_config_from_config config = record {
  max_retries = config.max_retries;
  lock_ttl = duration_or_none config.lock_ttl;
  lock_renew_interval = duration_or_none config.lock_renew_interval;
  lock_timeout = duration_or_none config.lock_timeout;
}

-- The checks in their order, as tests, with their errors.
abbrev checks : Bool → Bool → Bool → Bool → Bool → Bool → (ℕ → String) → String → Result (Unit {0})
checks ttl timeout renew shorter interval no_redis e prefix =
    prefix_error prefix (
      refuse_if (not ttl) (e 1)
      >> (refuse_if (not timeout) (e 2) >> (refuse_if (not renew || not shorter) (e 3) >> ok tt)))
    >> (refuse_if (not interval) (e 4) >> (refuse_if no_redis (e 5) >> ok tt))

checks_iff :
    (ttl timeout renew shorter interval no_redis : Bool) (e : ℕ → String) (prefix : String)
    → (checks ttl timeout renew shorter interval no_redis e prefix ≡ ok tt) ↔ (
        (ttl ≡ true)
        × (timeout ≡ true)
        × (renew ≡ true)
        × (shorter ≡ true)
        × (interval ≡ true)
        × (no_redis ≡ false))
checks_iff ttl timeout renew shorter interval no_redis e prefix = ground arith

abbrev lock_errors : ℕ → String
lock_errors n =
    if n == 1
    then "WORKER_LOCK_TTL_MS must be greater than zero"
    else if n == 2
    then "WORKER_LOCK_TIMEOUT_MS must be greater than zero"
    else if n == 3
    then "WORKER_LOCK_RENEW_INTERVAL_MS must be greater than zero and less than WORKER_LOCK_TTL_MS"
    else if n == 4
    then "WORKER_BACKFILL_INTERVAL_MS must be greater than zero when DATABASE_URL is set"
    else "REDIS_ADDR is required when DATABASE_URL is set; scheduler-worker refuses to run without Redis line locks"

-- A worker with a database runs exactly when a line has a lock to take (a Redis address), the lock has
-- a positive time to live and is renewed at a positive interval before it ends, the wait for it has a
-- positive timeout and the backfill a positive interval.
pub validate_database_mode_config_iff :
    (config : WorkerConfig)
    → (validate_database_mode_config config ≡ ok tt) ↔ (
        (is_positive config.lock_ttl ≡ true)
        × (is_positive config.lock_timeout ≡ true)
        × (is_positive config.lock_renew_interval ≡ true)
        × (less config.lock_renew_interval config.lock_ttl ≡ true)
        × (is_positive config.backfill_interval ≡ true)
        × (str_eq config.redis_addr "" ≡ false))
unfolding validate_database_mode_config validate_lock_config
validate_database_mode_config_iff config = checks_iff _ _ _ _ _ _ lock_errors _
