-- ===== src/Accounts/Users.antt =====
-- The profiles: `getMe`, `updateMe` and `getUserById` of
-- backend/services/user-service/src/modules/users/users.service.ts.
use backend_sketch.Prelude.{String, Option, none, some, List, ◌==◌, string_eq, if◌then◌else◌, ◌||◌}
use backend_sketch.Prelude.Result.{Result, ok, err}
use backend_sketch.Api.{not_found, validation_failed, UserDto, to_user_dto}
use backend_sketch.Db.{User}
use backend_sketch.Accounts.{
  Value, text, truthy, falsy, is_truthy, Failure, app, find_user_by_id, update_user,
}

pub record ProfileBody : Type 0 where
  pub display_name : Value
  pub avatar_url : Value

-- `getUserById`, and `getMe` with the user of the request.
unfoldable pub get_user_by_id : String → List User → Result Failure UserDto
unfolding find_user_by_id to_user_dto
get_user_by_id id users = elim (find_user_by_id id users) [
  | none ↦ err (app (record { status_code = 404; code = not_found; message = "User not found" }))
  | some u ↦ ok (to_user_dto u)
]

-- `...(display_name ? { displayName: String(display_name) } : {})`
unfoldable pub new_name : Value → Option String
new_name (text s) = if s == "" then none else some s
new_name (truthy s) = some s
new_name falsy = none

unfoldable pub update_me : String → ProfileBody → List User → Result Failure (UserDto × List User)
unfolding is_truthy new_name update_user to_user_dto
update_me id body users =
    if is_truthy body.display_name || is_truthy body.avatar_url
    then elim (update_user id (new_name body.display_name) users) [
      | err e ↦ err e
      | ok made ↦ ok (to_user_dto made.0, made.1)
    ]
    else err (
        app (record {
          status_code = 400;
          code = validation_failed;
          message = "At least one of display_name or avatar_url is required";
        }))
