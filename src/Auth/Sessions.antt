-- ===== src/Auth/Sessions.antt =====
-- `MemoryTokenSessionStore` of internal/api/token_session.go. Its key of a token is a digest, a
-- parameter here; a session is known until its expiry, in seconds.
use woms.Base.{
  ℕ, ◌≡◌, refl, inl, inr, Bool, false, not, ◌||◌, none, some, List, [], ◌∷◌, All, String, str_eq,
  eq_iff, ltb, arith, if◌then◌else◌, Bool-cases, Option-cases,
}
use woms.Base.Maps.{Map, lookup, insert, delete, has, lookup-insert, lookup-delete}
use woms.Base.Results.{Result, ok, err}
use woms.Api.Requests.{Claims}

-- The sessions: the expiry under the key of each token.
abbrev pub Sessions : Type 0
Sessions = Map ℕ

-- The calls on the sessions, each at a reading of the clock.
pub data SessionCall : Type 0 where
  saves : ℕ → String → Claims → SessionCall
  verifies : ℕ → String → SessionCall
  revokes : String → SessionCall

module _ (token_session_key : String → String) where
  -- `now` is the reading of the clock, in seconds.
  unfoldable pub save : ℕ → String → Claims → Sessions → Sessions × Result (Unit {0})
  unfolding insert
  save now token claims s =
      if str_eq token "" || not (ltb now claims.expires)
      then (s, err "token session not found")
      else (insert (token_session_key token) claims.expires s, ok tt)

  unfoldable pub verify : ℕ → String → Sessions → Sessions × Result (Unit {0})
  unfolding lookup delete
  verify now token s = elim (lookup (token_session_key token) s) [
    | none ↦ (s, err "token session not found")
    | some expires ↦
        if not (ltb now expires)
        then (delete (token_session_key token) s, err "token session not found")
        else (s, ok tt)
  ]

  unfoldable pub revoke : String → Sessions → Sessions × Bool
  unfolding delete has
  revoke token s = (delete (token_session_key token) s, has (token_session_key token) s)

  unfoldable pub session_call : SessionCall → Sessions → Sessions
  unfolding save verify revoke
  session_call (saves now token claims) s = (save now token claims s).0
  session_call (verifies now token) s = (verify now token s).0
  session_call (revokes token) s = (revoke token s).0

  unfoldable pub session_calls : List SessionCall → Sessions → Sessions
  unfolding session_call
  session_calls [] s = s
  session_calls (c ∷ cs) s = session_calls cs (session_call c s)

  -- Every call but one that saves the token again.
  abbrev pub Leaves : String → SessionCall → Type 0
  Leaves token (saves now other claims) =
      str_eq (token_session_key other) (token_session_key token) ≡ false
  Leaves token (verifies now other) = Unit
  Leaves token (revokes other) = Unit

  abbrev IsUnknown : String → Sessions → Type 0
  IsUnknown token s = lookup (token_session_key token) s ≡ none

  -- The verification that comes right after the revocation.
  pub revoke-verify :
      (now : ℕ) (token : String) (s : Sessions)
      → (verify now token (revoke token s).0).1 ≡ err "token session not found"
  unfolding revoke verify
  revoke-verify now token s = ground (
    arith,
    lookup-delete (token_session_key token) (token_session_key token) s,
    eq_iff (token_session_key token) (token_session_key token),
  )

  delete-IsUnknown :
      (token gone : String) (s : Sessions) → IsUnknown token s → IsUnknown token (delete gone s)
  delete-IsUnknown token gone s h =
      ground (arith, lookup-delete gone (token_session_key token) s, h)

  verify-IsUnknown :
      (token : String) (now : ℕ) (other : String) (s : Sessions)
      → IsUnknown token s
      → IsUnknown token (verify now other s).0
  unfolding verify
  verify-IsUnknown token now other s h = elim (Option-cases (lookup (token_session_key other) s)) [
    | inl missing ↦ rw (verify, missing) h
    | inr (expires, found) ↦ elim (Bool-cases (ltb now expires)) [
      | inl live ↦ rw (verify, found, live) h
      | inr over ↦ rw (verify, found, over) (delete-IsUnknown token (token_session_key other) s h)
    ]
  ]

  session_call-IsUnknown :
      (token : String) (c : SessionCall) (s : Sessions)
      → Leaves token c
      → IsUnknown token s
      → IsUnknown token (session_call c s)
  unfolding session_call save verify revoke
  session_call-IsUnknown token (saves now other claims) s leaves h = ground (
    arith,
    lookup-insert (token_session_key other) (token_session_key token) claims.expires s,
    leaves,
    h,
  )
  session_call-IsUnknown token (verifies now other) s leaves h =
      verify-IsUnknown token now other s h
  session_call-IsUnknown token (revokes other) s leaves h =
      delete-IsUnknown token (token_session_key other) s h

  session_calls-IsUnknown :
      (token : String) (cs : List SessionCall) (s : Sessions)
      → All (Leaves token) cs
      → IsUnknown token s
      → IsUnknown token (session_calls cs s)
  unfolding session_calls
  session_calls-IsUnknown token [] s leave h = h
  session_calls-IsUnknown token (c ∷ cs) s leave h =
      session_calls-IsUnknown token cs (session_call c s) leave.1
        (session_call-IsUnknown token c s leave.0 h)

  -- After a revocation, whatever calls follow, no verification accepts the token at any time, as long
  -- as none of the calls saves the token (or one with the same key) again.
  pub revoke-session_calls-verify :
      (now : ℕ) (token : String) (cs : List SessionCall) (s : Sessions)
      → All (Leaves token) cs
      → (verify now token (session_calls cs (revoke token s).0)).1 ≡ err "token session not found"
  unfolding revoke verify
  revoke-session_calls-verify now token cs s leave =
      let gone : IsUnknown token (delete (token_session_key token) s) = ground (
        arith,
        lookup-delete (token_session_key token) (token_session_key token) s,
        eq_iff (token_session_key token) (token_session_key token),
      ) in
      rw (verify, session_calls-IsUnknown token cs (revoke token s).0 leave gone) refl

  -- A token that is saved is accepted exactly until the expiry of its claims.
  pub save-verify :
      (saved now : ℕ) (token : String) (claims : Claims) (s t : Sessions)
      → save saved token claims s ≡ (t, ok tt)
      → (verify now token t).1
        ≡ (if ltb now claims.expires then ok tt else err "token session not found")
  unfolding save verify
  save-verify saved now token claims s t h = ground (
    arith,
    h,
    lookup-insert (token_session_key token) (token_session_key token) claims.expires s,
    eq_iff (token_session_key token) (token_session_key token),
  )
