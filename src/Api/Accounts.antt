-- ===== src/Api/Accounts.antt =====
-- The accounts of internal/api/server.go: who can log in after a deletion and after a creation.
use woms.Base.{
  str_eq, ◌≡◌, ◌∙◌, inl, inr, true, false, none, some, String, eq_iff, arith, Option-cases,
  Bool-cases,
}
use woms.Base.Maps.{lookup, lookup-insert, lookup-delete}
use woms.Base.Results.{ok, Result-cases}
use woms.Base.Text.{trim_space}
use woms.Auth.Passwords.{hash_password, verify_password-bcrypt, hash_password-blank}
use woms.Domain.{User}
use woms.Api.References.{Reference, Reference-is_referenced}
use woms.Api.Requests.{CreateUserRequest}
use woms.Api.State.{Env, MemoryStore, audit_locked}
use woms.Api.Users.{
  authenticate, created_user, create_user, remove_user, delete_user, disable_user_locked,
  is_referenced,
}
use Prim.Native.String

remove_user-authenticate :
    (env : Env) (username actor password : String) (user : User) (s : MemoryStore)
    → authenticate env username password (remove_user env username actor user s).0 ≡ none
unfolding authenticate remove_user disable_user_locked audit_locked
remove_user-authenticate env username actor password user s =
    elim (Bool-cases (is_referenced actor user s)) [
      | inl referenced ↦ ground (
        arith,
        referenced,
        lookup-insert username username (record user { disabled = true; deleted = false }) s.users,
        eq_iff username username,
      )
      | inr free ↦
          ground (arith, free, lookup-delete username username s.users, eq_iff username username)
    ]

-- After `DeleteUser` of a name, whether it succeeds or not, no password logs in under the name.
pub delete_user-authenticate :
    (env : Env) (name actor password : String) (s : MemoryStore)
    → authenticate env (trim_space name) password (delete_user env name actor s).0 ≡ none
unfolding delete_user authenticate
delete_user-authenticate env name actor password s =
    elim (Option-cases (lookup (trim_space name) s.users)) [
      | inl missing ↦ ground (arith, missing)
      | inr (user, found) ↦
          rw (delete_user, found)
            (remove_user-authenticate env (trim_space name) actor password user s)
    ]

-- A user that deletes themselves, that made or rejected an order of the store, or that an audit entry
-- or a preview has as its actor is not removed by a deletion: the account stays under its name with its
-- role, line and password, disabled.
pub delete_user-referenced :
    (env : Env) (name actor : String) (user : User) (s : MemoryStore)
    → lookup (trim_space name) s.users ≡ some user
    → Reference actor user s
    → lookup (trim_space name) (delete_user env name actor s).0.users
      ≡ some (record user { disabled = true; deleted = false })
unfolding delete_user remove_user disable_user_locked audit_locked
delete_user-referenced env name actor user s found refers =
    rw (delete_user, found, remove_user, Reference-is_referenced actor user s refers)
      (lookup-insert (trim_space name) (trim_space name)
          (record user { disabled = true; deleted = false }) s.users
        ∙ ground (arith, eq_iff (trim_space name) (trim_space name)))

-- What a created user holds.
record IsCreated (env : Env) (req : CreateUserRequest) (user : User) : Type 0 where
  hash : String
  hashed : env.crypto.bcrypt_hash req.password ≡ ok hash
  password : user.password_hash ≡ String.◌++◌ "bcrypt$" hash
  username : user.username ≡ trim_space req.username
  enabled : user.disabled ≡ false
  given : str_eq req.password "" ≡ false

created_user-IsCreated :
    (env : Env) (req : CreateUserRequest) (s : MemoryStore) (user : User)
    → created_user env req s ≡ ok user
    → IsCreated env req user
unfolding created_user hash_password
created_user-IsCreated env req s user h =
    elim (Result-cases (env.crypto.bcrypt_hash req.password)) [
      | inr (e, refused) ↦ ground (arith, refused, h)
      | inl (hash, hashed) ↦ record {
        hash = hash;
        hashed = hashed;
        password = ground (arith, hashed, h);
        username = ground (arith, hashed, h);
        enabled = ground (arith, hashed, h);
        given = elim (Bool-cases (str_eq req.password "")) [
          | inr given ↦ given
          | inl blank ↦ ground (arith, hash_password-blank env.crypto req.password blank, h)
        ];
      }
    ]

-- A user that `CreateUser` returns can log in with the password of the request, if bcrypt accepts the
-- password that it hashed.
pub create_user-authenticate :
    (env : Env) (req : CreateUserRequest) (actor : String) (s t : MemoryStore) (user : User)
    → ((password hash : String)
        → env.crypto.bcrypt_hash password ≡ ok hash
        → env.crypto.bcrypt_matches hash password ≡ true)
    → create_user env req actor s ≡ (t, ok user)
    → authenticate env (trim_space req.username) req.password t ≡ some user
unfolding create_user authenticate audit_locked
create_user-authenticate env req actor s t user law h =
    elim (Result-cases (created_user env req s)) [
      | inr (e, refused) ↦ ground (arith, refused, h)
      | inl (u, created) ↦
          let facts = created_user-IsCreated env req s u created in
          let checked = law req.password facts.hash facts.hashed in
          ground (
            arith,
            created,
            h,
            checked,
            verify_password-bcrypt env.crypto facts.hash req.password facts.given,
            facts.password,
            facts.username,
            facts.enabled,
            lookup-insert u.username (trim_space req.username) u s.users,
            eq_iff u.username (trim_space req.username),
          )
    ]
