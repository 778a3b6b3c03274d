-- ===== src/Lock/RoundTrip.antt =====
-- What the reader of the protocol makes of what the writer wrote.
use mathlib.Core.List.{append_assoc}
use Prim.Native.Char.{code}
use Prim.Native.String
use woms.Base.{
  ℕ, ◌+◌, ◌≤◌, ◌<◌, ◌/◌, ◌%◌, ◌≡◌, ◌≢◌, refl, sym, ap, ◌∙◌, inl, inr, Bool, true, false, ◌&&◌, none,
  some, List, [], ◌∷◌, ◌++◌, String, ◌==◌, length, arith, Option-cases, Bool-cases, ltb, leb, ◌-◌,
  ◌*◌,
}
use woms.Base.Decimal.{digits_value-itoa, digits_value-digit}
use woms.Base.Int.{pos}
use woms.Base.Integers.{signed_number, digits_number}
use woms.Base.Text.{codes, itoa, itoa_from, digit, digits_value, is_digit}
use woms.Lock.Protocol.{Bytes, crlf, write_arg, value, read_line, trim_cr, read_full, read_value}
use text.Mathlib.TextLemmas.{nil-append, cons-append}

none≢some : {A : Type 0} {a : A} → none ≡ some a → ⊥
none≢some h = cc

-- A digit is none of the bytes that the reader looks for.
digit-eq-lf : (c : ℕ) → is_digit c ≡ true → (c == 10) ≡ false
unfolding is_digit
digit-eq-lf c good = ground arith

digit-eq-minus : (c : ℕ) → is_digit c ≡ true → (c == b'-') ≡ false
unfolding is_digit
digit-eq-minus c good = ground arith

digit-eq-plus : (c : ℕ) → is_digit c ≡ true → (c == b'+') ≡ false
unfolding is_digit
digit-eq-plus c good = ground arith

read_line-digits :
    (digits rest : Bytes) (n acc : ℕ)
    → digits_value acc digits ≡ some n
    → read_line (digits ++ (13 ∷ 10 ∷ rest)) ≡ some (digits ++ (13 ∷ []), rest)
unfolding read_line digits_value
read_line-digits [] rest n acc h = elim (Option-cases (read_line rest)) [
  | inl over ↦ rw (over, read_line) refl
  | inr ((line, after), more) ↦ rw (more, read_line) refl
]
read_line-digits (c ∷ digits) rest n acc h = elim (Bool-cases (is_digit c)) [
  | inl good ↦
      let tail : digits_value (10 * acc + (c - 48)) digits ≡ some n =
        rw (good, digits_value) at h in
      rw (read_line-digits digits rest n (10 * acc + (c - 48)) tail, digit-eq-lf c good, read_line)
        refl
  | inr bad ↦ absurd (none≢some (rw (bad, digits_value) at h))
]

trim_cr-cr : (line : Bytes) → trim_cr (line ++ (13 ∷ [])) ≡ line
unfolding trim_cr
trim_cr-cr [] = refl
trim_cr-cr (c ∷ []) = refl
trim_cr-cr (c ∷ d ∷ line) = ap (λ (l : Bytes). c ∷ l) (trim_cr-cr (d ∷ line))

read_full-length : (v rest : Bytes) → read_full (length v) (v ++ rest) ≡ some (v, rest)
unfolding read_full
read_full-length [] rest = refl
read_full-length (c ∷ v) rest = rw (read_full-length v rest, read_full) refl

le→leb : (n : ℕ) → n ≤ 9223372036854775807 → leb n 9223372036854775807 ≡ true
le→leb n h = ground arith

signed_number-digits :
    (cs : Bytes) (n : ℕ)
    → digits_value 0 cs ≡ some n
    → cs ≢ []
    → n ≤ 9223372036854775807
    → signed_number cs ≡ some (pos n)
unfolding signed_number digits_number digits_value
signed_number-digits [] n h some_digit small = absurd (some_digit refl)
signed_number-digits (c ∷ cs) n h some_digit small = elim (Bool-cases (is_digit c)) [
  | inl good ↦
      rw (digit-eq-minus c good, digit-eq-plus c good, h, le→leb n small, signed_number) refl
  | inr bad ↦ absurd (none≢some (rw (bad, digits_value) at h))
]

codes-append : (s t : String) → codes (String.◌++◌ s t) ≡ codes s ++ codes t
codes-append String.[] t = rw (nil-append t) refl
codes-append (String.◌∷◌ c s) t =
    rw (cons-append c s t) (ap (λ (l : List ℕ). code c ∷ l) (codes-append s t))

append-nonempty : (xs ys : Bytes) → ys ≢ [] → xs ++ ys ≢ []
append-nonempty [] ys h = h
append-nonempty (x ∷ xs) ys h = λ e. cc

some-injective : {A : Type 0} {a b : A} → some a ≡ some b → a ≡ b
some-injective h = cc

digit-nonempty : (n : ℕ) → n < 10 → codes (digit n) ≢ []
unfolding digits_value
digit-nonempty n small h =
    let read : some 1 ≡ some (10 * 1 + n) =
      ap (digits_value 1) (sym h) ∙ digits_value-digit 1 n small in
    let same : 1 ≡ 10 * 1 + n = some-injective read in omega (arith, same)

itoa-nonempty : (n : ℕ) → codes (itoa n) ≢ []
unfolding itoa itoa_from
itoa-nonempty n = elim (Bool-cases (ltb n 10)) [
  | inl small ↦ rw small (digit-nonempty n (ground (arith, small)))
  | inr large ↦
      rw (large, codes-append (itoa_from n (n / 10)) (digit (n % 10)))
        (append-nonempty (codes (itoa_from n (n / 10))) (codes (digit (n % 10)))
          (digit-nonempty (n % 10) (omega arith)))
]

-- A number in decimal is read back.
signed_number-itoa :
    (n : ℕ) → n ≤ 9223372036854775807 → signed_number (codes (itoa n)) ≡ some (pos n)
signed_number-itoa n small =
    signed_number-digits (codes (itoa n)) n (digits_value-itoa n) (itoa-nonempty n) small

-- What `write_arg` writes in front of a rest, bracketed as it is read.
write_arg-append :
    (v rest : Bytes)
    → write_arg v ++ rest ≡ b'$' ∷ (codes (itoa (length v)) ++ (13 ∷ 10 ∷ (v ++ (13 ∷ 10 ∷ rest))))
unfolding write_arg
write_arg-append v rest =
    ap (λ (l : Bytes). b'$' ∷ l)
      (append_assoc (codes (itoa (length v))) (13 ∷ 10 ∷ (v ++ crlf)) rest
        ∙ ap (λ (l : Bytes). codes (itoa (length v)) ++ (13 ∷ 10 ∷ l)) (append_assoc v crlf rest))

and_false : (b : Bool) → (b && false) ≡ false
and_false true = refl
and_false false = refl

-- Either reader gives back an argument that the writer wrote, whatever bytes it has and whatever
-- follows, and leaves what follows to be read next.
pub read_value-write_arg :
    (strict : Bool) (v rest : Bytes)
    → length v ≤ 9223372036854775807
    → read_value strict (write_arg v ++ rest) ≡ (value v, rest)
unfolding read_value
read_value-write_arg strict v rest small =
    rw
      (
        write_arg-append v rest,
        read_line-digits (codes (itoa (length v))) (v ++ (13 ∷ 10 ∷ rest)) (length v) 0
            (digits_value-itoa (length v)),
        trim_cr-cr (codes (itoa (length v))),
        signed_number-itoa (length v) small,
        read_full-length v (13 ∷ 10 ∷ rest),
        and_false strict,
      )
      refl
