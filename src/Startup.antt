-- ===== src/Startup.antt =====
-- internal/startup/startup.go: waiting for the services that a command needs. A service, the dialler
-- and the timers are parameters.
use woms.Base.{
  ℕ, zero, suc, ◌+◌, ◌≤◌, ◌≡◌, ◌↔◌, ◌⊎◌, inl, inr, refl, sym, ap, ◌∙◌, List, [], ◌∷◌, ◌++◌, String,
  str_eq, arith, if◌then◌else◌,
}
use woms.Base.Results.{Result, ok, err, Result-cases, ok≢err}
use woms.Base.Text.{trim_space, split_on}
use Prim.Native.String

-- The loop of `RetryDependency` from an attempt on: `operation` gives the result of each attempt, and
-- `ticks` is how often the timer fires before the context is over.
unfoldable pub retry_from : String → (ℕ → Result (Unit {0})) → ℕ → ℕ → Result (Unit {0})
retry_from name operation attempt zero = elim (operation attempt) [
  | ok ready ↦ ok tt
  | err last ↦ err (String.◌++◌ name (String.◌++◌ " not ready before timeout: " last))
]
retry_from name operation attempt (suc ticks) = elim (operation attempt) [
  | ok ready ↦ ok tt
  | err last ↦ retry_from name operation (suc attempt) ticks
]

unfoldable pub retry_dependency : String → (ℕ → Result (Unit {0})) → ℕ → Result (Unit {0})
unfolding retry_from
retry_dependency name operation ticks = retry_from name operation 1 ticks

unfoldable pub keep_parts : List String → List String
unfolding trim_space
keep_parts [] = []
keep_parts (part ∷ parts) =
    let rest = keep_parts parts in
    if str_eq (trim_space part) "" then rest else trim_space part ∷ rest

unfoldable pub split_csv : String → List String
unfolding keep_parts split_on
split_csv value = keep_parts (split_on b',' value)

-- `strings.Join(addresses, ",")`
unfoldable pub join_csv : List String → String
join_csv [] = ""
join_csv (part ∷ []) = part
join_csv (part ∷ next ∷ parts) = String.◌++◌ part (String.◌++◌ "," (join_csv (next ∷ parts)))

-- The loop of `PingAnyTCP`, with the errors so far.
unfoldable pub ping_each :
    (String → Result (Unit {0})) → List String → List String → Result (Unit {0}) ⊎ List String
ping_each ping [] errors = inr errors
ping_each ping (address ∷ addresses) errors = elim (ping address) [
  | ok reached ↦ inl (ok tt)
  | err e ↦ ping_each ping addresses (errors ++ String.◌++◌ address (String.◌++◌ ": " e) ∷ [])
]

-- `errors.Join`
unfoldable pub join_errors : List String → String
join_errors [] = ""
join_errors (e ∷ []) = e
join_errors (e ∷ next ∷ errors) = String.◌++◌ e (String.◌++◌ "\n" (join_errors (next ∷ errors)))

unfoldable pub ping_any_tcp : (String → Result (Unit {0})) → List String → Result (Unit {0})
unfolding split_csv join_csv ping_each join_errors
ping_any_tcp ping addresses = elim (split_csv (join_csv addresses)) [
  | [] ↦ err "no addresses configured"
  | first ∷ rest ↦ elim (ping_each ping (first ∷ rest) []) [
    | inl reached ↦ reached
    | inr errors ↦ err (String.◌++◌ "no configured addresses are reachable: " (join_errors errors))
  ]
]

module _ (name : String) (operation : ℕ → Result (Unit {0})) where
  ready_within :
      (ticks attempt : ℕ)
      → retry_from name operation attempt ticks ≡ ok tt
      → (late : ℕ) × (late ≤ ticks) × (operation (attempt + late) ≡ ok tt)
  unfolding retry_from
  ready_within zero attempt h = elim (Result-cases (operation attempt)) [
    | inl (ready, now) ↦ (0, omega arith, ap operation (omega arith) ∙ now)
    | inr (e, bad) ↦ absurd (ok≢err (sym (rw (bad, retry_from) at h)))
  ]
  ready_within (suc ticks) attempt h = elim (Result-cases (operation attempt)) [
    | inl (ready, now) ↦ (0, omega arith, ap operation (omega arith) ∙ now)
    | inr (e, bad) ↦
        let (late, soon, now) = ready_within ticks (suc attempt) (rw (bad, retry_from) at h) in
        (suc late, omega (arith, soon), ap operation (omega arith) ∙ now)
  ]

  within_ready :
      (ticks attempt late : ℕ)
      → late ≤ ticks
      → operation (attempt + late) ≡ ok tt
      → retry_from name operation attempt ticks ≡ ok tt
  unfolding retry_from
  within_ready ticks attempt zero soon now =
      let at_once : operation attempt ≡ ok tt = ap operation (omega arith) ∙ now in
      elim ticks as (λ n. retry_from name operation attempt n ≡ ok tt) [
        | zero ↦ rw (at_once, retry_from) refl
        | suc n ↦ rw (at_once, retry_from) refl
      ]
  within_ready zero attempt (suc late) soon now = absurd (omega (arith, soon))
  within_ready (suc ticks) attempt (suc late) soon now = elim (Result-cases (operation attempt)) [
    | inl (ready, at_once) ↦ rw (at_once, retry_from) refl
    | inr (e, bad) ↦
        rw (bad, retry_from)
          (within_ready ticks (suc attempt) late (omega (arith, soon))
            (ap operation (omega arith) ∙ now))
  ]

  -- The wait for a dependency succeeds exactly when one of its attempts does: the first, or one of
  -- those after the ticks of the timer before the context is over.
  pub retry_dependency_iff :
      (ticks : ℕ)
      → (retry_dependency name operation ticks ≡ ok tt)
        ↔ ((late : ℕ) × (late ≤ ticks) × (operation (1 + late) ≡ ok tt))
  unfolding retry_dependency
  retry_dependency_iff ticks = (ready_within ticks 1, λ h. within_ready ticks 1 h.0 h.1 h.2)
