-- ===== src/Tests/Logins.antt =====
-- The theorems on tokens and sessions at concrete tokens.
use woms.Base.{List, ◌*◌, ◌≡◌, refl, [], ◌∷◌, some, ltb, if◌then◌else◌}
use woms.Base.Results.{ok, err, ◌>>◌}
use woms.Domain.{sales}
use woms.Api.Requests.{Claims}
use woms.Auth.Token.{Codec, create_token, verify_token, check_claims, dated_claims, bearer_token}
use woms.Auth.RoundTrip.{IsFaithful}
use woms.Auth.RoundTrip
use woms.Auth.Sessions.{
  Sessions, SessionCall, saves, verifies, revokes, session_calls, save, verify, revoke,
}
use woms.Auth.Sessions
use woms.Clock.{unix_seconds}

abbrev ada : Claims
ada = record { subject = "user-ada"; role = sales; line_id = ""; expires = 0 }

abbrev dated : Claims
dated = record ada { expires = 1780531260 }

abbrev codec : Codec
codec = record {
  now = 740136 * 86400000000000;
  sign = λ secret input. "sig";
  encode = λ text. "enc";
  decode = λ text. some "claims";
  header_json = "header";
  marshal = λ claims. "claims";
  unmarshal = λ text. some dated;
}

faithful : IsFaithful codec "key" (dated_claims codec ada 60000000000)
unfolding unix_seconds
faithful = record {
  decoded = refl;
  read = refl;
  header_plain = refl;
  payload_plain = refl;
  signature_plain = refl;
}

create_token-verify_token_example : verify_token codec "key" "enc.enc.sig" ≡ (
    check_claims codec (dated_claims codec ada 60000000000)
    >> ok (dated_claims codec ada 60000000000))
unfolding create_token
create_token-verify_token_example =
    RoundTrip.create_token-verify_token codec "key" "enc.enc.sig" ada 60000000000 faithful refl

accepted : verify_token codec "key" "enc.enc.sig" ≡ ok dated
unfolding verify_token
accepted = refl

stripped : bearer_token "Bearer  abc " ≡ ok "abc"
unfolding bearer_token
stripped = refl

-- Another login, a verification of the revoked token, and another logout.
abbrev later_calls : List SessionCall
later_calls = saves 6 "def" dated ∷ verifies 6 "abc" ∷ revokes "def" ∷ []

revoke-session_calls-verify_example :
    (verify
      (λ t. t)
      7
      "abc"
      (session_calls (λ t. t) later_calls (revoke (λ t. t) "abc" (("abc", 9) ∷ [])).0)).1
    ≡ err "token session not found"
revoke-session_calls-verify_example =
    Sessions.revoke-session_calls-verify (λ t. t) 7 "abc" later_calls (("abc", 9) ∷ [])
      (refl, (tt, (tt, tt)))

save-verify_example :
    (verify (λ t. t) 7 "abc" (("abc", 1780531260) ∷ [])).1
    ≡ (if ltb 7 1780531260 then ok tt else err "token session not found")
unfolding save
save-verify_example =
    Sessions.save-verify (λ t. t) 5 7 "abc" dated [] (("abc", 1780531260) ∷ []) refl
