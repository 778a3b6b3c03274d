-- ===== src/Healthcheck.antt =====
-- cmd/healthcheck/main.go: the exit code of the health check. The HTTP client is an argument: what
-- `http.NewRequest` and the client's `Do` answer for an address and a time limit. So is
-- `time.ParseDuration`, whose values are opaque here.
use woms.Base.{
  sym, ◌∙◌, ℕ, suc, ◌≤◌, ◌<◌, ap, Bool-cases, ◌≡◌, ◌↔◌, refl, ◌||◌, String, str_eq, ltb, leb, arith,
  if◌then◌else◌, inl, inr,
}
use woms.Base.Results.{Result, ok, err, Result-cases}

unfoldable pub env_lookup : (String → String) → String → String → String
env_lookup lookup key fallback = if str_eq (lookup key) "" then fallback else lookup key

-- The error of `checkHealth`: an address that makes no request, a status, or a failed request.
pub data Unhealthy : Type 0 where
  invalid_url request_failed : String → Unhealthy
  unhealthy_status : ℕ → Unhealthy

pub data Health : Type 0 where
  healthy : Health
  unhealthy : Unhealthy → Health

abbrev pub judged : Result ℕ → Health
judged (err e) = unhealthy (Unhealthy.request_failed e)
judged (ok status) =
    if ltb status 200 || leb 300 status
    then unhealthy (Unhealthy.unhealthy_status status)
    else healthy

abbrev pub exit_code : Health → ℕ
exit_code healthy = 0
exit_code (unhealthy (Unhealthy.invalid_url e)) = 2
exit_code (unhealthy (Unhealthy.request_failed e)) = 1
exit_code (unhealthy (Unhealthy.unhealthy_status status)) = 1

abbrev pub checked_url : (String → String) → String
checked_url lookup = env_lookup lookup "HEALTHCHECK_URL" "http://127.0.0.1:8080/readyz"

-- The client, for a type of durations: the request for an address, and its status within a time.
pub record HttpClient (D : Type 0) : Type 0 where
  pub parse_duration : String → Result D
  pub new_request : String → Result (Unit {0})
  pub status_of : String → D → Result ℕ

module _ {D : Type 0} (client : HttpClient D) where
  unfoldable pub check_health : String → D → Health
  check_health url timeout = elim (client.new_request url) [
    | err e ↦ unhealthy (Unhealthy.invalid_url e)
    | ok request ↦ judged (client.status_of url timeout)
  ]

  abbrev pub checked_timeout : (String → String) → Result D
  checked_timeout lookup = client.parse_duration (env_lookup lookup "HEALTHCHECK_TIMEOUT" "2s")

  unfoldable pub run_healthcheck : (String → String) → ℕ
  unfolding env_lookup check_health
  run_healthcheck lookup = elim (checked_timeout lookup) [
    | err e ↦ 2
    | ok timeout ↦ exit_code (check_health (checked_url lookup) timeout)
  ]

code≢zero : (n : ℕ) → suc n ≡ 0 → ⊥
code≢zero n h = omega (arith, h)

judged-zero :
    (out : Result ℕ)
    → exit_code (judged out) ≡ 0
    → (status : ℕ) × (out ≡ ok status) × (200 ≤ status) × (status < 300)
judged-zero (err e) h = absurd (code≢zero 0 h)
judged-zero (ok status) h = elim (Bool-cases (ltb status 200 || leb 300 status)) [
  | inl bad ↦ absurd (
      code≢zero 0 (
        rw
          (← ap
            (λ b. exit_code (if b then unhealthy (Unhealthy.unhealthy_status status) else healthy))
            bad)
          h))
  | inr good ↦ (status, refl, ground (arith, good), ground (arith, good))
]

success-judged : (status : ℕ) → 200 ≤ status → status < 300 → judged (ok status) ≡ healthy
success-judged status low high = ground arith

module _ {D : Type 0} (client : HttpClient D) (lookup : String → String) where
  -- The client reaches the address within the time, with a status of success.
  pub record Answers : Type 0 where
    pub timeout : D
    pub status : ℕ
    pub parsed : checked_timeout client lookup ≡ ok timeout
    pub asked : client.new_request (checked_url lookup) ≡ ok tt
    pub got : client.status_of (checked_url lookup) timeout ≡ ok status
    pub low : 200 ≤ status
    pub high : status < 300

  abbrev code_after : Result D → ℕ
  code_after (err e) = 2
  code_after (ok timeout) = exit_code (check_health client (checked_url lookup) timeout)

  abbrev health_after : D → Result (Unit {0}) → Health
  health_after timeout (err e) = unhealthy (Unhealthy.invalid_url e)
  health_after timeout (ok request) = judged (client.status_of (checked_url lookup) timeout)

  requested :
      (timeout : D) (out : Result (Unit {0}))
      → exit_code (health_after timeout out) ≡ 0
      → (out ≡ ok tt) × (exit_code (judged (client.status_of (checked_url lookup) timeout)) ≡ 0)
  requested timeout (err e) h = absurd (code≢zero 1 h)
  requested timeout (ok request) h = (refl, h)

  with_timeout :
      (out : Result D)
      → code_after out ≡ 0
      → (timeout : D) × (out ≡ ok timeout)
        × (exit_code (check_health client (checked_url lookup) timeout) ≡ 0)
  with_timeout (err e) h = absurd (code≢zero 1 h)
  with_timeout (ok timeout) h = (timeout, refl, h)

  run_healthcheck-code : run_healthcheck client lookup ≡ code_after (checked_timeout client lookup)
  unfolding run_healthcheck
  run_healthcheck-code = elim (Result-cases (checked_timeout client lookup)) [
    | inr (e, bad) ↦ rw (run_healthcheck, bad) refl
    | inl (timeout, parsed) ↦ rw (run_healthcheck, parsed) refl
  ]

  check_health-after :
      (timeout : D)
      → check_health client (checked_url lookup) timeout
        ≡ health_after timeout (client.new_request (checked_url lookup))
  unfolding check_health
  check_health-after timeout = elim (Result-cases (client.new_request (checked_url lookup))) [
    | inr (e, bad) ↦ rw (check_health, bad) refl
    | inl (request, asked) ↦ rw (check_health, asked) refl
  ]

  zero-Answers : run_healthcheck client lookup ≡ 0 → Answers
  zero-Answers h =
      let (timeout, parsed, code) =
        with_timeout (checked_timeout client lookup) (sym run_healthcheck-code ∙ h) in
      let (asked, last) =
        requested timeout (client.new_request (checked_url lookup))
          (sym (ap exit_code (check_health-after timeout)) ∙ code) in
      let (status, got, low, high) =
        judged-zero (client.status_of (checked_url lookup) timeout) last in
      record {
        timeout = timeout;
        status = status;
        parsed = parsed;
        asked = asked;
        got = got;
        low = low;
        high = high;
      }

  Answers-zero : Answers → run_healthcheck client lookup ≡ 0
  Answers-zero a =
      rw
        (
          run_healthcheck-code,
          a.parsed,
          check_health-after a.timeout,
          a.asked,
          a.got,
          success-judged a.status a.low a.high,
        )
        refl

  -- The health check exits with 0 exactly if its time limit can be read, its address makes a request,
  -- and the client gets a status from 200 to 299 within the time.
  pub run_healthcheck_iff : (run_healthcheck client lookup ≡ 0) ↔ Answers
  run_healthcheck_iff = (zero-Answers, Answers-zero)
