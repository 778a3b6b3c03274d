-- ===== src/Auth/Token.antt =====
-- `CreateToken`, `VerifyToken` and `BearerToken` of internal/auth/jwt.go.
use Prim.Native.String.{◌++◌}
use woms.Base.{
  ℕ, ◌+◌, not, ◌||◌, ◌&&◌, List, [], ◌∷◌, Option, none, some, String, str_eq, leb, if◌then◌else◌,
}
use woms.Base.Results.{Result, ok, err, or_fail, refuse_if, ◌>>=◌, ◌>>◌}
use woms.Base.Text.{trim_space, split_on, strip_prefix}
use woms.Clock.{Time, unix_seconds}
use woms.Domain.{role_text, is_scheduler}
use woms.Api.Requests.{Claims}
use woms.Api.Validation.{unknown_role}

-- What the code takes from Go's libraries: the clock, HMAC with its base64 text, base64 (raw URL
-- encoding) and JSON. The header of a token is one text.
pub record Codec : Type 0 where
  pub now : Time
  pub sign : String → String → String
  pub encode : String → String
  pub decode : String → Option String
  pub header_json : String
  pub marshal : Claims → String
  pub unmarshal : String → Option Claims

abbrev pub invalid_token : String
invalid_token = "無效的登入權杖"

abbrev pub signing_input : Codec → Claims → String
signing_input codec claims =
    codec.encode codec.header_json ++ ("." ++ codec.encode (codec.marshal claims))

-- The claims with the expiry of a token that lives for `ttl`.
abbrev pub dated_claims : Codec → Claims → ℕ → Claims
dated_claims codec claims ttl = record claims { expires = unix_seconds (codec.now + ttl) }

unfoldable pub create_token : Codec → String → Claims → ℕ → Result String
unfolding unix_seconds
create_token codec secret claims ttl =
    let input : String = signing_input codec (dated_claims codec claims ttl) in
    if str_eq secret ""
    then err "JWT secret 不可為空"
    else ok (input ++ ("." ++ codec.sign secret input))

abbrev pub three_parts : List String → Option (String × String × String)
three_parts (a ∷ b ∷ c ∷ []) = some (a, b, c)
three_parts _ = none

-- The checks of the claims.
unfoldable pub check_claims : Codec → Claims → Result (Unit {0})
unfolding trim_space unix_seconds
check_claims codec claims = do
  refuse_if (str_eq claims.subject "" || str_eq (role_text claims.role) "") invalid_token
  refuse_if (unknown_role claims.role) invalid_token
  refuse_if (is_scheduler claims.role && str_eq (trim_space claims.line_id) "") invalid_token
  refuse_if (leb claims.expires (unix_seconds codec.now)) "登入權杖已過期"

unfoldable pub verify_token : Codec → String → String → Result Claims
unfolding split_on check_claims
verify_token codec secret token = do
  refuse_if (str_eq secret "" || str_eq token "") invalid_token
  (header, payload, signature) ← or_fail (three_parts (split_on b'.' token)) invalid_token
  refuse_if (not (str_eq (codec.sign secret (header ++ ("." ++ payload))) signature)) invalid_token
  body ← or_fail (codec.decode payload) invalid_token
  claims ← or_fail (codec.unmarshal body) invalid_token
  check_claims codec claims
  ok claims

unfoldable pub bearer_token : String → Result String
unfolding strip_prefix trim_space
bearer_token header = do
  rest ← or_fail (strip_prefix "Bearer " header) invalid_token
  let token = trim_space rest
  refuse_if (str_eq token "") invalid_token
  ok token
