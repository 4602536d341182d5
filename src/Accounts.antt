-- ===== src/Accounts.antt =====
-- The accounts of the user service: the fields of a request, the rules for them, and the rows that
-- one statement finds or writes (backend/services/user-service/src/modules/auth/auth.service.ts,
-- auth.repository.ts and users.repository.ts).
pub mod Auth
pub mod Users
pub mod Http
pub mod Tokens
pub mod Failures
pub mod Profiles
use Prim.Native.String
use Prim.Native.Char.{Char, code}
use backend_sketch.Prelude.{
  ℕ, ◌+◌, Bool, true, false, not, String, Option, none, some, List, [], ◌∷◌, ◌++◌, any, find, ◌==◌,
  string_eq, nat_eq, if◌then◌else◌, ◌&&◌, ◌||◌, leb,
}
use backend_sketch.Prelude.Result.{Result, ok, err}
use backend_sketch.Api.{AppError}
use backend_sketch.Db.{User}
use backend_sketch.Chats.Send.{is_space}

-- A field of a JSON body: a text, a value that a test takes for true, with what `String` makes of
-- it, or one that it takes for false, as a field that is not there.
pub data Value : Type 0 where
  text : String → Value
  truthy : (as_text : String) → Value
  falsy : Value

unfoldable pub is_truthy : Value → Bool
is_truthy (text s) = not (s == "")
is_truthy (truthy s) = true
is_truthy falsy = false

-- `isNonEmptyString`: the text, where it is one.
unfoldable pub nonempty_string : Value → Option String
nonempty_string (text s) = if s == "" then none else some s
nonempty_string (truthy s) = none
nonempty_string falsy = none

unfoldable pub is_name_char : Char → Bool
is_name_char c =
    let n = code c in
    (leb 48 n && leb n 57)
    || ((leb 65 n && leb n 90) || ((leb 97 n && leb n 122) || ((n == 95) || (n == 45))))

unfoldable pub all_name_chars : String → Bool
unfolding is_name_char
all_name_chars String.[] = true
all_name_chars (String.◌∷◌ c s) = is_name_char c && all_name_chars s

-- The length of a text as the language counts it, in units of 16 bits.
unfoldable pub code_units : String → ℕ
code_units String.[] = 0
code_units (String.◌∷◌ c s) = (if leb 65536 (code c) then 2 else 1) + code_units s

-- `USERNAME_RE.test`
unfoldable pub is_username : String → Bool
unfolding all_name_chars code_units
is_username s = all_name_chars s && (leb 3 (code_units s) && leb (code_units s) 32)

unfoldable pub all_plain : String → Bool
unfolding is_space
all_plain String.[] = true
all_plain (String.◌∷◌ c s) = not (is_space c) && (not (code c == 64) && all_plain s)

-- A dot stands in the text, and not at its end.
unfoldable pub has_inner_dot : String → Bool
has_inner_dot String.[] = false
has_inner_dot (String.◌∷◌ c s) = ((code c == 46) && not (s == "")) || has_inner_dot s

unfoldable pub is_domain : String → Bool
unfolding all_plain has_inner_dot
is_domain String.[] = false
is_domain (String.◌∷◌ c s) = all_plain (String.◌∷◌ c s) && has_inner_dot s

-- The rest of an address, `seen` a character before it.
unfoldable pub is_address : (seen : Bool) → String → Bool
unfolding is_domain is_space
is_address seen String.[] = false
is_address seen (String.◌∷◌ c s) =
    let rest = is_address true s in
    if code c == 64 then seen && is_domain s else not (is_space c) && rest

-- `EMAIL_RE.test`
unfoldable pub is_email : String → Bool
unfolding is_address
is_email s = is_address false s

-- What may be thrown: an `AppError`, or the driver's error for a broken constraint.
pub data Failure : Type 0 where
  app : AppError → Failure
  unique_violation : Failure
  record_not_found : Failure

-- `findUserByEmailOrUsername`
unfoldable pub find_user_by_email_or_username : String → String → List User → Option User
find_user_by_email_or_username email username =
    find (λ u. (u.email == email) || (u.username == username))

-- `findUserByEmail`
unfoldable pub find_user_by_email : String → List User → Option User
find_user_by_email email = find (λ u. u.email == email)

-- `findUserById`
unfoldable pub find_user_by_id : String → List User → Option User
find_user_by_id id = find (λ u. u.id == id)

-- The unique columns of the schema.
unfoldable pub takes : User → User → Bool
takes u v = (u.id == v.id) || ((u.username == v.username) || (u.email == v.email))

-- `createUser`: the row is written where it breaks no unique constraint.
unfoldable pub create_user : User → List User → Result Failure (User × List User)
unfolding takes
create_user u users =
    if any (λ v. takes u v) users then err unique_violation else ok (u, users ++ u ∷ [])

-- The row of an update with its name changed.
unfoldable pub rename : String → Option String → List User → List User
rename id name [] = []
rename id name (u ∷ users) =
    let rest = rename id name users in
    if u.id == id
    then record u { display_name = elim name [ none ↦ u.display_name | some n ↦ n ] } ∷ rest
    else u ∷ rest

-- `updateUser`
unfoldable pub update_user : String → Option String → List User → Result Failure (User × List User)
unfolding rename find_user_by_id
update_user id name users = elim (find_user_by_id id users) [
  | none ↦ err record_not_found
  | some u ↦ ok (
    record u { display_name = elim name [ none ↦ u.display_name | some n ↦ n ] },
    rename id name users,
  )
]
