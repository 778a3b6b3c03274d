-- ===== src/Auth/RoundTrip.antt =====
-- `CreateToken` and `VerifyToken` of internal/auth/jwt.go together.
use Prim.Native.Char.{Char, char, code}
use Prim.Native.String.{◌++◌}
use text.Mathlib.TextLemmas.{nil-append, cons-append, append_assoc}
use woms.Base.{
  ℕ, ◌≡◌, refl, sym, ap, subst, ◌∙◌, inl, inr, Bool, true, false, not, ◌&&◌, [], ◌∷◌, some, String,
  str_eq, eq_iff, ◌==◌, arith, Bool-cases,
}
use woms.Base.Results.{ok, ◌>>◌}
use woms.Base.Text.{split_on}
use woms.Api.Requests.{Claims}
use woms.Auth.Token.{Codec, signing_input, dated_claims, create_token, check_claims, verify_token}

-- A text with no dot.
abbrev pub dot_free : String → Bool
dot_free String.[] = true
dot_free (String.◌∷◌ c s) = not (code c == b'.') && dot_free s

single-append : (c : Char) (s : String) → String.◌∷◌ c String.[] ++ s ≡ String.◌∷◌ c s
single-append c s = cons-append c String.[] s ∙ ap (String.◌∷◌ c) (nil-append s)

split_on-whole : (s : String) → dot_free s ≡ true → split_on b'.' s ≡ s ∷ []
unfolding split_on
split_on-whole String.[] h = refl
split_on-whole (String.◌∷◌ c s) h = elim (Bool-cases (code c == b'.')) [
  | inl dot ↦ ground (arith, dot, h)
  | inr plain ↦
      let whole : split_on b'.' s ≡ s ∷ [] = split_on-whole s (ground (arith, plain, h)) in
      rw (split_on, plain, whole) (ap (λ x. x ∷ []) (single-append c s))
]

split_on-dot : (t : String) → split_on b'.' ("." ++ t) ≡ String.[] ∷ split_on b'.' t
unfolding split_on
split_on-dot t = ap (split_on b'.') (single-append (char 46 tt) t)

split_on-append :
    (s t : String) → dot_free s ≡ true → split_on b'.' (s ++ ("." ++ t)) ≡ s ∷ split_on b'.' t
unfolding split_on
split_on-append String.[] t h = ap (split_on b'.') (nil-append ("." ++ t)) ∙ split_on-dot t
split_on-append (String.◌∷◌ c s) t h = elim (Bool-cases (code c == b'.')) [
  | inl dot ↦ ground (arith, dot, h)
  | inr plain ↦
      let rest : split_on b'.' (s ++ ("." ++ t)) ≡ s ∷ split_on b'.' t =
        split_on-append s t (ground (arith, plain, h)) in
      rw (cons-append c s ("." ++ t))
        (rw (split_on, plain, rest) (ap (λ x. x ∷ split_on b'.' t) (single-append c s)))
]

-- What the libraries promise of a token: base64 and JSON read back what they wrote for it, and base64
-- texts have no dot.
pub record IsFaithful (codec : Codec) (secret : String) (claims : Claims) : Type 0 where
  pub decoded : codec.decode (codec.encode (codec.marshal claims)) ≡ some (codec.marshal claims)
  pub read : codec.unmarshal (codec.marshal claims) ≡ some claims
  pub header_plain : dot_free (codec.encode codec.header_json) ≡ true
  pub payload_plain : dot_free (codec.encode (codec.marshal claims)) ≡ true
  pub signature_plain : dot_free (codec.sign secret (signing_input codec claims)) ≡ true

-- The token of `input`, taken apart.
parts-token :
    (codec : Codec) (secret : String) (claims : Claims)
    → IsFaithful codec secret claims
    → split_on b'.'
        (signing_input codec claims ++ ("." ++ codec.sign secret (signing_input codec claims)))
      ≡ codec.encode codec.header_json
        ∷ codec.encode (codec.marshal claims)
        ∷ codec.sign secret (signing_input codec claims)
        ∷ []
parts-token codec secret claims law =
    let head : String = codec.encode codec.header_json in
    let payload : String = codec.encode (codec.marshal claims) in
    let signature : String = codec.sign secret (signing_input codec claims) in
    ap (split_on b'.') (
      append_assoc head ("." ++ payload) ("." ++ signature)
      ∙ ap (λ x. head ++ x) (append_assoc "." payload ("." ++ signature)))
    ∙ split_on-append head (payload ++ ("." ++ signature)) law.header_plain
    ∙ ap (λ x. head ∷ x)
        (split_on-append payload signature law.payload_plain
          ∙ ap (λ x. payload ∷ x) (split_on-whole signature law.signature_plain))

-- The blank text has one part.
not_blank : (s : String) {a b c : String} → split_on b'.' s ≡ a ∷ b ∷ c ∷ [] → str_eq s "" ≡ false
unfolding split_on
not_blank s h = elim (Bool-cases (str_eq s "")) [
  | inr other ↦ other
  | inl blank ↦ cc (sym h ∙ ap (split_on b'.') ((eq_iff s "").0 blank))
]

str_eq_refl : (s : String) → str_eq s s ≡ true
str_eq_refl s = (eq_iff s s).1 refl

-- A token that `CreateToken` makes with a secret is accepted by `VerifyToken` with the secret exactly if
-- its claims pass the checks (a subject, a known role, a line for a scheduler, not expired), and it then
-- returns the claims; base64 and JSON read back what they wrote for the token.
pub create_token-verify_token :
    (codec : Codec) (secret token : String) (claims : Claims) (ttl : ℕ)
    → IsFaithful codec secret (dated_claims codec claims ttl)
    → create_token codec secret claims ttl ≡ ok token
    → verify_token codec secret token
      ≡ (check_claims codec (dated_claims codec claims ttl) >> ok (dated_claims codec claims ttl))
unfolding create_token verify_token
create_token-verify_token codec secret token claims ttl law h =
    elim (Bool-cases (str_eq secret "")) [
      | inl blank ↦ ground (arith, blank, h)
      | inr keyed ↦
          let dated : Claims = dated_claims codec claims ttl in
          let input : String = signing_input codec dated in
          let whole : String = input ++ ("." ++ codec.sign secret input) in
          let same : whole ≡ token = ground (arith, keyed, h) in
          subst (λ x. verify_token codec secret x ≡ (check_claims codec dated >> ok dated)) same
            (rw
              (
                verify_token,
                keyed,
                not_blank whole (parts-token codec secret dated law),
                parts-token codec secret dated law,
                str_eq_refl (codec.sign secret input),
                law.decoded,
                law.read,
              )
              refl)
    ]
