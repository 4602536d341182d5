-- ===== src/Tests/Accounts.antt =====
-- The theorems on the accounts at concrete inputs, with a hash that marks a password and a token
-- that is a name.
use Prim.Native.String
use native.Mathlib.Decide.{ℕ_discrete}
use backend_sketch.Prelude.{
  ℕ, Bool, true, String, Option, some, [], ◌∷◌, ◌++◌, ◌≡◌, ◌⊎◌, refl, ◌==◌, string_eq, str_discrete,
  test_of_eq,
}
use backend_sketch.Prelude.Result.{ok, err}
use backend_sketch.Api.{to_user_dto, conflict, validation_failed}
use backend_sketch.Db.{User}
use backend_sketch.Accounts.{
  text, falsy, is_truthy, nonempty_string, is_username, all_name_chars, is_name_char, code_units,
  is_email, is_address, is_domain, all_plain, has_inner_dot, find_user_by_email_or_username,
  find_user_by_email, find_user_by_id, takes, create_user, update_user, rename,
}
use backend_sketch.Chats.Send.{is_space}
use backend_sketch.Accounts.Auth.{
  RegisterBody, AuthResponse, JwtPayload, Registration, registration_of, register, login,
  authenticate, respond, new_user, taken,
}
use backend_sketch.Accounts.Auth.Laws.{Apart, register-Apart, register-login, Answers}
use backend_sketch.Accounts.Users.{ProfileBody, update_me, new_name}
use backend_sketch.Accounts.Http.{passed, auth_middleware, error_middleware}
use backend_sketch.Accounts.Tokens.{spaceless, login_passes}
use backend_sketch.Accounts.Failures.{Fresh, Invalid, register_refusals}
use backend_sketch.Accounts.Profiles.{ReadBack, update_me-ReadBack}
use backend_sketch.Tests.Data.{alice}

abbrev same_hash : String → String
same_hash s = s

abbrev same_password : String → String → Bool
same_password a b = a == b

abbrev token_of : ℕ → String → String → String
token_of at id username = "token"

abbrev bob_body : RegisterBody
bob_body = record {
  username = text "bob";
  email = text "b@x.y";
  password = text "password";
  display_name = text "Bob";
}

abbrev bob : User
bob = record {
  id = "bob-id";
  username = "bob";
  display_name = "Bob";
  email = "b@x.y";
  password = "password";
  created_at = 9;
}

abbrev bob_answer : AuthResponse
bob_answer = record { token = "token"; user = to_user_dto bob }

bob_registers :
    register same_hash same_password token_of 5 "bob-id" 9 bob_body [] (alice ∷ [])
    ≡ ok (bob_answer, alice ∷ bob ∷ [])
unfolding register registration_of nonempty_string is_username all_name_chars is_name_char
    code_units is_email is_address is_domain all_plain has_inner_dot is_space
    find_user_by_email_or_username create_user takes respond new_user to_user_dto ℕ_discrete
    str_discrete
bob_registers = refl

register-Apart_example :
    Apart (alice ∷ bob ∷ [])
    × ((u : User) × ((alice ∷ bob ∷ []) ≡ (alice ∷ []) ++ u ∷ [])
        × (bob_answer.user ≡ to_user_dto u))
register-Apart_example =
    register-Apart same_hash same_password token_of 5 "bob-id" 9 bob_body [] (alice ∷ [])
      (bob_answer, alice ∷ bob ∷ []) (tt, tt) bob_registers

register-login_example :
    Answers same_hash same_password token_of 5 70
      (bob_answer, alice ∷ bob ∷ [])
      (login same_hash same_password token_of 70
        (record { email = text "b@x.y"; password = text "password" })
        (alice ∷ bob ∷ []))
register-login_example =
    register-login same_hash same_password token_of 5 70 "bob-id" 9 bob_body [] (alice ∷ [])
      (bob_answer, alice ∷ bob ∷ []) (λ p. test_of_eq p p refl) bob_registers

-- Tokens are verified as Alice's.
abbrev verify : String → Option JwtPayload
verify token = some (record { user_id = "alice"; username = "alice" })

alice_logs_in :
    login same_hash same_password token_of 5
      (record { email = text "alice@example.com"; password = text "hash" })
      (alice ∷ [])
    ≡ ok (record { token = "token"; user = to_user_dto alice })
unfolding login authenticate is_truthy find_user_by_email respond to_user_dto str_discrete
alice_logs_in = refl

token_is_spaceless : spaceless "token" ≡ true
unfolding spaceless ℕ_discrete
token_is_spaceless = refl

login_passes_example :
    (email password : String) × (row : User) × (text "alice@example.com" ≡ text email)
    × (text "hash" ≡ text password)
    × (find_user_by_email email (alice ∷ []) ≡ some row)
    × (same_password password row.password ≡ true)
    × (auth_middleware verify (some (String.◌++◌ "Bearer " "token"))
        ≡ passed (record { user_id = row.id; username = row.username }))
login_passes_example =
    login_passes same_hash same_password token_of 5 verify (text "alice@example.com") (text "hash")
      (alice ∷ []) (record { token = "token"; user = to_user_dto alice })
      ((token_is_spaceless, refl), tt) alice_logs_in

abbrev conflict_body : RegisterBody
conflict_body = record bob_body { username = text "alice" }

alice_is_taken :
    register same_hash same_password token_of 5 "bob-id" 9 conflict_body (alice ∷ []) (alice ∷ [])
    ≡ err (taken "alice" alice)
unfolding register registration_of nonempty_string is_username all_name_chars is_name_char
    code_units is_email is_address is_domain all_plain has_inner_dot is_space
    find_user_by_email_or_username ℕ_discrete str_discrete
alice_is_taken = refl

alice_is_apart : Fresh "bob-id" (alice ∷ [])
unfolding str_discrete
alice_is_apart = refl

register_refusals_example :
    (((error_middleware (taken "alice" alice)).status ≡ 400)
      × ((error_middleware (taken "alice" alice)).code ≡ validation_failed)
      × Invalid conflict_body)
    ⊎ (((error_middleware (taken "alice" alice)).status ≡ 409)
        × ((error_middleware (taken "alice" alice)).code ≡ conflict)
        × ((r : Registration) × (u : User) × (registration_of conflict_body ≡ some r)
            × (find_user_by_email_or_username r.email r.username (alice ∷ []) ≡ some u)))
register_refusals_example =
    register_refusals same_hash same_password token_of 5 "bob-id" 9 conflict_body (alice ∷ [])
      (taken "alice" alice) alice_is_apart alice_is_taken

abbrev renaming : ProfileBody
renaming = record { display_name = text "Al"; avatar_url = falsy }

abbrev al : User
al = record alice { display_name = "Al" }

alice_renames : update_me "alice" renaming (alice ∷ []) ≡ ok (to_user_dto al, al ∷ [])
unfolding update_me is_truthy new_name update_user find_user_by_id rename str_discrete
alice_renames = refl

update_me-ReadBack_example : ReadBack "alice" renaming (alice ∷ []) (to_user_dto al, al ∷ [])
update_me-ReadBack_example =
    update_me-ReadBack "alice" renaming (alice ∷ []) (to_user_dto al, al ∷ []) alice_renames
