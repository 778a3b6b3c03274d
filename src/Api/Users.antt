-- ===== src/Api/Users.antt =====
-- The operations on users of internal/api/server.go.
use woms.Base.{
  Bool, true, false, ◌||◌, ◌&&◌, not, List, Option, none, some, String, str_eq, str_lt, any_of,
  if◌then◌else◌,
}
use woms.Base.Maps.{lookup, insert, delete, has, values}
use woms.Base.Results.{Result, ok, or_fail, refuse_if, ◌>>=◌, ◌>>◌}
use woms.Base.Text.{trim_space}
use woms.Auth.Passwords.{hash_password, verify_password}
use woms.Domain.{User, ProductionLine, role_text, is_scheduler}
use woms.Scheduler.Sorting.{stable_sort}
use woms.Api.Requests.{AssignUserRequest, CreateUserRequest, ResetUserPasswordRequest}
use woms.Api.State.{Env, MemoryStore, committing, audit_locked}
use woms.Api.Validation.{unknown_role, validate_username, validate_user_role}
use Prim.Native.String

unfoldable pub authenticate : Env → String → String → MemoryStore → Option User
unfolding verify_password
authenticate env username password s = elim (lookup username s.users) [
  | none ↦ none
  | some user ↦
      if user.disabled || not (verify_password env.crypto user.password_hash password)
      then none
      else some user
]

unfoldable pub list_users : MemoryStore → List User
unfolding stable_sort
list_users s = stable_sort (λ a b. str_lt a.username b.username) (values s.users)

unfoldable pub list_lines : MemoryStore → List ProductionLine
unfolding stable_sort
list_lines s = stable_sort (λ a b. str_lt a.id b.id) (values s.lines)

abbrev put_user : User → MemoryStore → MemoryStore
put_user user s = record s { users = insert user.username user s.users }

unfoldable pub assigned_user : AssignUserRequest → MemoryStore → Result User
unfolding has
assigned_user req s = do
  user ← or_fail (lookup req.username s.users) "user not found"
  refuse_if (unknown_role req.role) "role must be admin, sales, or scheduler"
  refuse_if (is_scheduler req.role && not (has req.line_id s.lines))
      "scheduler lineId must be A, B, C, or D"
  ok (record user { role = req.role; line_id = if is_scheduler req.role then req.line_id else "" })

unfoldable pub assign_user :
    Env → AssignUserRequest → String → MemoryStore → MemoryStore × Result User
unfolding assigned_user audit_locked
assign_user env req actor_id s = committing s (assigned_user req s) λ user. (
  audit_locked env actor_id "user.assign" user.id
      (String.◌++◌ (role_text user.role) (String.◌++◌ " " user.line_id)) (put_user user s),
  user,
)

unfoldable pub created_user : Env → CreateUserRequest → MemoryStore → Result User
unfolding validate_username validate_user_role hash_password has
created_user env req s = do
  let username = trim_space req.username
  validate_username username
  refuse_if (has username s.users) "username already exists"
  validate_user_role req.role req.line_id s.lines
  password_hash ← hash_password env.crypto req.password
  ok (record {
    id = String.◌++◌ "user-" username;
    username = username;
    password_hash = password_hash;
    role = req.role;
    line_id = if is_scheduler req.role then req.line_id else "";
    disabled = false;
    deleted = false;
  })

unfoldable pub create_user :
    Env → CreateUserRequest → String → MemoryStore → MemoryStore × Result User
unfolding created_user audit_locked
create_user env req actor_id s = committing s (created_user env req s) λ user. (
  audit_locked env actor_id "user.create" user.id
      (String.◌++◌ (role_text user.role) (String.◌++◌ " " user.line_id)) (put_user user s),
  user,
)

unfoldable pub reset_password_user : Env → ResetUserPasswordRequest → MemoryStore → Result User
unfolding hash_password
reset_password_user env req s = do
  user ← or_fail (lookup (trim_space req.username) s.users) "user not found"
  password_hash ← hash_password env.crypto req.password
  ok (record user { password_hash = password_hash })

unfoldable pub reset_user_password :
    Env → ResetUserPasswordRequest → String → MemoryStore → MemoryStore × Result User
unfolding reset_password_user audit_locked
reset_user_password env req actor_id s =
    committing s (reset_password_user env req s)
      λ user. (audit_locked env actor_id "user.reset_password" user.id "" (put_user user s), user)

unfoldable pub user_has_order_references_locked : String → MemoryStore → Bool
unfolding any_of
user_has_order_references_locked user_id s =
    any_of (λ o. str_eq o.created_by user_id || str_eq o.rejected_by user_id) (values s.orders)

unfoldable pub user_has_audit_references_locked : String → MemoryStore → Bool
unfolding any_of
user_has_audit_references_locked user_id s = any_of (λ a. str_eq a.actor_id user_id) s.audits

unfoldable pub user_has_preview_references_locked : String → MemoryStore → Bool
unfolding any_of
user_has_preview_references_locked user_id s =
    any_of (λ p. str_eq p.actor_id user_id) (values s.previews)

unfoldable pub disable_user_locked : Env → String → User → String → MemoryStore → MemoryStore × User
unfolding audit_locked
disable_user_locked env username user actor_id s =
    let disabled : User = record user { disabled = true; deleted = false } in
    (
      audit_locked env actor_id "user.disable" user.id ""
          (record s { users = insert username disabled s.users }),
      disabled,
    )

abbrev pub is_referenced : String → User → MemoryStore → Bool
is_referenced actor_id user s =
    str_eq actor_id user.id
    || user_has_order_references_locked user.id s
    || user_has_audit_references_locked user.id s
    || user_has_preview_references_locked user.id s

-- The writes of `DeleteUser`: a user that something refers to is kept, disabled.
unfoldable pub remove_user : Env → String → String → User → MemoryStore → MemoryStore × User
unfolding disable_user_locked audit_locked user_has_order_references_locked
    user_has_audit_references_locked user_has_preview_references_locked delete
remove_user env username actor_id user s =
    if is_referenced actor_id user s then disable_user_locked env username user actor_id s else (
      audit_locked env actor_id "user.delete" user.id ""
          (record s { users = delete username s.users }),
      record user { disabled = false; deleted = true },
    )

unfoldable pub delete_user : Env → String → String → MemoryStore → MemoryStore × Result User
unfolding trim_space remove_user
delete_user env name actor_id s =
    let username : String = trim_space name in
    committing s (or_fail (lookup username s.users) "user not found")
      λ user. remove_user env username actor_id user s
