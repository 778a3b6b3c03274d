-- ===== src/Base/Results.antt =====
-- The results of fallible code, and code that may fail and changes a state. A failure keeps the
-- changes made before it, as a Go method does that returns an error after a write.
use mathlib.Core.Path.{◌≡◌, refl}
use mathlib.Core.Logic.{◌⊎◌, inl, inr}
use mathlib.Core.Bool.{Bool, true, false}
use mathlib.Core.Option.{Option, none, some}
use Prim.Native.String.{String}

pub data Result {ℓ} (A : Type ℓ) : Type ℓ where
  ok : A → Result A
  err : String → Result A

-- `if bad { return errors.New(e) }`
abbrev pub refuse_if : Bool → String → Result (Unit {0})
refuse_if true e = err e
refuse_if false e = ok tt

-- A missing map entry is an error.
abbrev pub or_fail {ℓ} : {A : Type ℓ} → Option A → String → Result A
or_fail none e = err e
or_fail (some a) e = ok a

-- `if err != nil { return …, err }` in front of what follows: with the value, or without.
module _ {ℓ κ} {B : Type κ} where
  infixl 5 ◌>>=◌
  abbrev pub ◌>>=◌ : {A : Type ℓ} → Result A → (A → Result B) → Result B
  err reason >>= next = err reason
  ok value >>= next = next value

module _ {κ} {B : Type κ} where
  infixl 5 ◌>>◌
  abbrev pub ◌>>◌ : Result (Unit {0}) → Result B → Result B
  err reason >> next = err reason
  ok done >> next = next

pub ok≢err {ℓ} : {A : Type ℓ} {a : A} {e : String} → ok a ≡ err e → ⊥
ok≢err h = cc

pub ok-injective {ℓ} : {A : Type ℓ} {a b : A} → ok a ≡ ok b → a ≡ b
ok-injective h = cc

-- The value of a bind that succeeds comes from a first part that does.
pub >>=-eq-ok {ℓ κ} :
    {A : Type ℓ} {B : Type κ} (first : Result A) (next : A → Result B) {out : B}
    → (first >>= next) ≡ ok out
    → (value : A) × (first ≡ ok value) × (next value ≡ ok out)
>>=-eq-ok (err reason) next h = cc
>>=-eq-ok (ok value) next h = (value, refl, h)

pub Result-cases {ℓ} :
    {A : Type ℓ} (r : Result A) → ((a : A) × (r ≡ ok a)) ⊎ ((e : String) × (r ≡ err e))
Result-cases (ok a) = inl (a, refl)
Result-cases (err e) = inr (e, refl)
