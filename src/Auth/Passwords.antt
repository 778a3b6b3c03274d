-- ===== src/Auth/Passwords.antt =====
-- `HashPassword` and `VerifyPassword` of internal/auth/password.go. Byte sequences are texts.
use Prim.Native.String.{◌++◌}
use text.Mathlib.TextLemmas.{nil-append, cons-append}
use woms.Base.{
  ℕ, zero, suc, ◌≡◌, refl, sym, subst, eq_iff, Bool, true, false, ◌&&◌, ◌||◌, List, [], ◌∷◌, Option,
  none, some, String, str_eq, ltb, ◌==◌, arith, if◌then◌else◌,
}
use woms.Base.Results.{Result, ok, err, refuse_if, ◌>>=◌, ◌>>◌}
use woms.Base.Text.{trim_space, split_on, strip_prefix}
use woms.Api.OrderIds.{atoi}

-- bcrypt, base64 (raw URL encoding) and SHA-256.
pub record Crypto : Type 0 where
  pub bcrypt_hash : String → Result String
  pub bcrypt_matches : String → String → Bool
  pub base64_decode : String → Option String
  pub sha256 : String → String

unfoldable pub hash_password : Crypto → String → Result String
unfolding trim_space
hash_password crypto password = do
  refuse_if (str_eq (trim_space password) "") "password is required"
  hash ← crypto.bcrypt_hash password
  ok ("bcrypt$" ++ hash)

-- The rounds after the first.
unfoldable pub digest_rounds : Crypto → ℕ → String → String
digest_rounds crypto zero digest = digest
digest_rounds crypto (suc rounds) digest = digest_rounds crypto rounds (crypto.sha256 digest)

unfoldable pub password_digest : Crypto → String → String → ℕ → String
unfolding digest_rounds
password_digest crypto password salt zero = crypto.sha256 (salt ++ password)
password_digest crypto password salt (suc rounds) =
    digest_rounds crypto rounds (crypto.sha256 (salt ++ password))

-- A legacy hash, in four parts.
unfoldable pub verify_legacy : Crypto → String → String → String → String → Bool
unfolding atoi password_digest
verify_legacy crypto password count salt_text expected_text = elim (atoi count) [
  | none ↦ false
  | some iterations ↦
      if iterations == 0 || ltb 300000 iterations
      then false
      else elim (crypto.base64_decode salt_text) [
        | none ↦ false
        | some salt ↦ elim (crypto.base64_decode expected_text) [
          | none ↦ false
          | some expected ↦ str_eq (password_digest crypto password salt iterations) expected
        ]
      ]
]

abbrev four_parts : List String → Option (String × String × String × String)
four_parts (a ∷ b ∷ c ∷ d ∷ []) = some (a, b, c, d)
four_parts _ = none

abbrev verify_demo : String → String → Bool
verify_demo stored_hash password = str_eq stored_hash "demo" && str_eq stored_hash password

unfoldable pub verify_password : Crypto → String → String → Bool
unfolding strip_prefix split_on verify_legacy
verify_password crypto stored_hash password =
    if str_eq password "" then false else elim (strip_prefix "bcrypt$" stored_hash) [
      | some hash ↦ crypto.bcrypt_matches hash password
      | none ↦ elim (four_parts (split_on b'$' stored_hash)) [
        | none ↦ verify_demo stored_hash password
        | some (kind, count, salt, expected) ↦
            if str_eq kind "sha256"
            then verify_legacy crypto password count salt expected
            else verify_demo stored_hash password
      ]
    ]

strip_prefix-append : (p s : String) → strip_prefix p (p ++ s) ≡ some s
unfolding strip_prefix
strip_prefix-append String.[] s = rw (nil-append s) refl
strip_prefix-append (String.◌∷◌ c p) s =
    rw (cons-append c p s) (ground (arith, strip_prefix-append p s))

-- A hash of `HashPassword` is checked by bcrypt alone.
pub verify_password-bcrypt :
    (crypto : Crypto) (hash password : String)
    → str_eq password "" ≡ false
    → verify_password crypto ("bcrypt$" ++ hash) password ≡ crypto.bcrypt_matches hash password
unfolding verify_password
verify_password-bcrypt crypto hash password h =
    rw (verify_password, h, strip_prefix-append "bcrypt$" hash) refl

-- The blank password is refused.
pub hash_password-blank :
    (crypto : Crypto) (password : String)
    → str_eq password "" ≡ true
    → hash_password crypto password ≡ err "password is required"
unfolding hash_password trim_space
hash_password-blank crypto password h =
    subst (λ p. hash_password crypto p ≡ err "password is required")
      (sym ((eq_iff password "").0 h)) refl
