-- ===== src/Accounts/Auth.antt =====
-- `register`, `login` and `refresh` of
-- backend/services/user-service/src/modules/auth/auth.service.ts. The hash of a password, its
-- comparison and the signing of a token are the
-- libraries'; a token carries the time at which it is signed, so `sign_token` takes it.
pub mod Laws
use Prim.Native.String
use backend_sketch.Prelude.{
  ℕ, Bool, true, false, not, String, Option, none, some, List, ◌==◌, string_eq, if◌then◌else◌, ◌&&◌,
  ltb,
}
use backend_sketch.Prelude.Result.{Result, ok, err}
use backend_sketch.Api.{
  AppError, validation_failed, auth_required, not_found, conflict, UserDto, to_user_dto,
}
use backend_sketch.Db.{User}
use backend_sketch.Accounts.{
  Value, text, truthy, falsy, is_truthy, nonempty_string, is_username, is_email, code_units,
  Failure, app, find_user_by_email_or_username, find_user_by_email, find_user_by_id, create_user,
}

pub record RegisterBody : Type 0 where
  pub username : Value
  pub email : Value
  pub password : Value
  pub display_name : Value

pub record LoginBody : Type 0 where
  pub email : Value
  pub password : Value

pub record AuthResponse : Type 0 where
  pub token : String
  pub user : UserDto

-- The payload of a token.
pub record JwtPayload : Type 0 where
  pub user_id : String
  pub username : String

abbrev pub invalid : String → Failure
invalid message = app (record { status_code = 400; code = validation_failed; message = message })

abbrev pub unauthorised : String → Failure
unauthorised message = app (record { status_code = 401; code = auth_required; message = message })

abbrev pub register_required_message : String
register_required_message = "username, email, password, display_name are required"

abbrev pub username_rule_message : String
username_rule_message =
    "username must be 3-32 characters and contain only letters, numbers, \"_\" or \"-\""

abbrev pub email_rule_message : String
email_rule_message = "email must be a valid email address"

abbrev pub password_rule_message : String
password_rule_message = "password must be at least 8 characters"

-- The fields of a registration that are all texts.
pub record Registration : Type 0 where
  pub username : String
  pub email : String
  pub password : String
  pub display_name : String

unfoldable pub registration_of : RegisterBody → Option Registration
unfolding nonempty_string
registration_of b = elim (nonempty_string b.username) [
  | none ↦ none
  | some username ↦ elim (nonempty_string b.email) [
    | none ↦ none
    | some email ↦ elim (nonempty_string b.password) [
      | none ↦ none
      | some password ↦ elim (nonempty_string b.display_name) [
        | none ↦ none
        | some display_name ↦ some (record {
          username = username;
          email = email;
          password = password;
          display_name = display_name;
        })
      ]
    ]
  ]
]

-- Whom the conflict is about.
unfoldable pub taken : String → User → Failure
taken username existing =
    let field = if existing.username == username then "username" else "email" in
    app
      (record { status_code = 409; code = conflict; message = String.◌++◌ field " already taken" })

module _ (hash : String → String) (compare : String → String → Bool)
    (sign_token : ℕ → String → String → String) (at : ℕ) where
  unfoldable pub respond : User → AuthResponse
  unfolding to_user_dto
  respond row = record { token = sign_token at row.id row.username; user = to_user_dto row }

  unfoldable pub new_user : String → ℕ → Registration → User
  new_user id now r = record {
    id = id;
    username = r.username;
    display_name = r.display_name;
    email = r.email;
    password = hash r.password;
    created_at = now;
  }

  -- `register`. The users are read before the password is hashed and written after it: `before` and
  -- `users` are the table at the two times.
  unfoldable pub register :
      String
      → ℕ
      → RegisterBody
      → (before users : List User) → Result Failure (AuthResponse × List User)
  unfolding registration_of is_username is_email code_units find_user_by_email_or_username
      create_user taken respond new_user
  register id now body before users = elim (registration_of body) [
    | none ↦ err (invalid register_required_message)
    | some r ↦
        if not (is_username r.username)
        then err (invalid username_rule_message)
        else if not (is_email r.email)
        then err (invalid email_rule_message)
        else if ltb (code_units r.password) 8
        then err (invalid password_rule_message)
        else elim (find_user_by_email_or_username r.email r.username before) [
          | some existing ↦ err (taken r.username existing)
          | none ↦ elim (create_user (new_user id now r) users) [
            | err e ↦ err e
            | ok made ↦ ok (respond made.0, made.1)
          ]
        ]
  ]

  -- The row whose password the body has.
  unfoldable pub authenticate : LoginBody → List User → Option User
  unfolding find_user_by_email
  authenticate body users = elim body.email [
    | text email ↦ elim (find_user_by_email email users) [
      | none ↦ none
      | some row ↦ elim body.password [
        | text password ↦ if compare password row.password then some row else none
        | truthy _ ↦ none
        | falsy ↦ none
      ]
    ]
    | truthy _ ↦ none
    | falsy ↦ none
  ]

  unfoldable pub login : LoginBody → List User → Result Failure AuthResponse
  unfolding authenticate is_truthy respond
  login body users =
      if is_truthy body.email && is_truthy body.password
      then elim (authenticate body users) [
        | none ↦ err (unauthorised "Invalid email or password")
        | some row ↦ ok (respond row)
      ]
      else err (invalid "email and password are required")

  -- `refresh`, of the user of the request.
  unfoldable pub refresh : Option JwtPayload → List User → Result Failure String
  unfolding find_user_by_id
  refresh none users = err (unauthorised "Invalid token payload")
  refresh (some u) users =
      if not (u.user_id == "") && not (u.username == "")
      then elim (find_user_by_id u.user_id users) [
        | none ↦
            err (app (record { status_code = 404; code = not_found; message = "User not found" }))
        | some row ↦ ok (sign_token at row.id row.username)
      ]
      else err (unauthorised "Invalid token payload")
