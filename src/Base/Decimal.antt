-- ===== src/Base/Decimal.antt =====
-- The decimal text of a number, read back.
use Prim.Native.Nat.{ℕ, zero, suc, ◌+◌, ◌-◌, ◌*◌, ◌/◌, ◌%◌, ◌<◌}
use Prim.Native.Char.{code}
use Prim.Native.String.{String, ◌++◌, count}
use mathlib.Core.Path.{◌≡◌, refl, ap, ◌∙◌}
use mathlib.Core.Logic.{inl, inr}
use mathlib.Core.Option.{Option, none, some}
use native.Mathlib.Omega.{arith}
use text.Mathlib.TextLemmas.{nil-append, cons-append}
use woms.Base.Tests.{ltb, Bool-cases}
use woms.Base.Text.{codes, digits_value, digit, itoa, itoa_from, zeros, itoa_padded}

abbrev then_digits : Option ℕ → String → Option ℕ
then_digits none t = none
then_digits (some v) t = digits_value v (codes t)

digits_value-append :
    (s t : String) (acc : ℕ)
    → digits_value acc (codes (s ++ t)) ≡ then_digits (digits_value acc (codes s)) t
unfolding digits_value
digits_value-append String.[] t acc = rw (nil-append t) refl
digits_value-append (String.◌∷◌ c s) t acc =
    rw (cons-append c s t) (ground (arith, digits_value-append s t (10 * acc + (code c - 48))))

pub digits_value-digit :
    (acc n : ℕ) → n < 10 → digits_value acc (codes (digit n)) ≡ some (10 * acc + n)
unfolding digits_value digit
digits_value-digit acc zero h = ap some (omega arith)
digits_value-digit acc (suc zero) h = ap some (omega arith)
digits_value-digit acc (suc (suc zero)) h = ap some (omega arith)
digits_value-digit acc (suc (suc (suc zero))) h = ap some (omega arith)
digits_value-digit acc (suc (suc (suc (suc zero)))) h = ap some (omega arith)
digits_value-digit acc (suc (suc (suc (suc (suc zero))))) h = ap some (omega arith)
digits_value-digit acc (suc (suc (suc (suc (suc (suc zero)))))) h = ap some (omega arith)
digits_value-digit acc (suc (suc (suc (suc (suc (suc (suc zero))))))) h = ap some (omega arith)
digits_value-digit acc (suc (suc (suc (suc (suc (suc (suc (suc zero)))))))) h =
    ap some (omega arith)
digits_value-digit acc (suc (suc (suc (suc (suc (suc (suc (suc (suc zero))))))))) h =
    ap some (omega arith)
digits_value-digit acc (suc (suc (suc (suc (suc (suc (suc (suc (suc (suc n)))))))))) h =
    ground arith

digits_value-itoa_from :
    (fuel n : ℕ) → n < fuel → digits_value 0 (codes (itoa_from fuel n)) ≡ some n
unfolding itoa_from
digits_value-itoa_from zero n h = ground arith
digits_value-itoa_from (suc fuel) n h = elim (Bool-cases (ltb n 10)) [
  | inl small ↦ rw small (digits_value-digit 0 n (ground arith) ∙ ap some (omega arith))
  | inr large ↦
      let shorter : digits_value 0 (codes (itoa_from fuel (n / 10))) ≡ some (n / 10) =
        digits_value-itoa_from fuel (n / 10) (ground arith) in
      rw (large, digits_value-append (itoa_from fuel (n / 10)) (digit (n % 10)) 0, shorter)
        (digits_value-digit (n / 10) (n % 10) (omega arith) ∙ ap some (omega arith))
]

pub digits_value-itoa : (n : ℕ) → digits_value 0 (codes (itoa n)) ≡ some n
unfolding itoa
digits_value-itoa n = digits_value-itoa_from (suc n) n (omega arith)

pub itoa-injective : (a b : ℕ) → itoa a ≡ itoa b → a ≡ b
itoa-injective a b h =
    cc (digits_value-itoa a, digits_value-itoa b, ap (λ s. digits_value 0 (codes s)) h)

digits_value-zeros : (n : ℕ) → digits_value 0 (codes (zeros n)) ≡ some 0
unfolding zeros digits_value
digits_value-zeros zero = refl
digits_value-zeros (suc n) = digits_value-append "0" (zeros n) 0 ∙ digits_value-zeros n

digits_value-itoa_padded : (width n : ℕ) → digits_value 0 (codes (itoa_padded width n)) ≡ some n
unfolding itoa_padded
digits_value-itoa_padded width n =
    digits_value-append (zeros (width - count (itoa n))) (itoa n) 0
    ∙ ap (λ o. then_digits o (itoa n)) (digits_value-zeros (width - count (itoa n)))
    ∙ digits_value-itoa n

pub itoa_padded-injective : (width a b : ℕ) → itoa_padded width a ≡ itoa_padded width b → a ≡ b
itoa_padded-injective width a b h = cc (
  digits_value-itoa_padded width a,
  digits_value-itoa_padded width b,
  ap (λ s. digits_value 0 (codes s)) h,
)
