-- ===== src/Api/OrderIds.antt =====
-- `nextRemainderOrderID` of internal/api/server.go: the ID of the order that takes the rest of another.
use Prim.Native.Char.{code}
use Prim.Native.String.{String, ◌++◌, len}
use woms.Base.{
  ℕ, zero, suc, ◌+◌, ◌≡◌, refl, Bool, true, false, Option, none, some, List, [], ◌∷◌, ◌==◌, leb,
  ltb, if◌then◌else◌,
}
use woms.Base.Text.{codes, digits_value, itoa}

-- The text before and after the last `-`.
unfoldable pub split_last_dash : String → Option (String × String)
split_last_dash String.[] = none
split_last_dash (String.◌∷◌ c s) = elim (split_last_dash s) [
  | some (before, after) ↦ some (String.◌∷◌ c before, after)
  | none ↦ if code c == b'-' then some (String.[], s) else none
]

digits_number : List ℕ → Option ℕ
unfolding digits_value
digits_number [] = none
digits_number (c ∷ cs) = elim (digits_value 0 (c ∷ cs)) [
  | none ↦ none
  | some n ↦ if leb n 9223372036854775807 then some n else none
]

signed_number : List ℕ → Option ℕ
unfolding digits_number
signed_number [] = none
signed_number (c ∷ cs) = if c == b'+' then digits_number cs else digits_number (c ∷ cs)

-- `strconv.Atoi` of a text with no `-`.
unfoldable pub atoi : String → Option ℕ
unfolding signed_number
atoi s = signed_number (codes s)

-- `fmt.Sprintf("%s-%d", base, next)`
unfoldable pub candidate : String → ℕ → String
unfolding itoa
candidate base next = base ++ ("-" ++ itoa next)

-- The loop: `none` means that the fuel ran out.
unfoldable pub search_id : ℕ → String → ℕ → (String → Bool) → Option String
unfolding candidate
search_id zero base next exists = none
search_id (suc fuel) base next exists = elim (exists (candidate base next)) [
  | true ↦ search_id fuel base (next + 1) exists
  | false ↦ some (candidate base next)
]

-- The base and the first number.
unfoldable pub remainder_base : String → Bool → String × ℕ
unfolding split_last_dash atoi
remainder_base original_id false = (original_id, 1)
remainder_base original_id true = elim (split_last_dash original_id) [
  | none ↦ (original_id, 1)
  | some (before, after) ↦
      if ltb 4 (len before)
      then elim (atoi after) [ none ↦ (original_id, 1) | some suffix ↦ (before, suffix + 1) ]
      else (original_id, 1)
]

unfoldable pub next_remainder_order_id : ℕ → String → Bool → (String → Bool) → Option String
unfolding remainder_base search_id
next_remainder_order_id fuel original_id increment exists =
    let (base, next) = remainder_base original_id increment in search_id fuel base next exists

first_remainder : next_remainder_order_id 3 "ORD-0000001" false (λ id. false) ≡ some "ORD-0000001-1"
unfolding next_remainder_order_id
first_remainder = refl

second_remainder :
    next_remainder_order_id 3 "ORD-0000001-9" true (λ id. false) ≡ some "ORD-0000001-10"
unfolding next_remainder_order_id
second_remainder = refl
