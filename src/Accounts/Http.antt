-- ===== src/Accounts/Http.antt =====
-- What stands before and behind every route: `authMiddleware`
-- (backend/packages/shared-auth/src/auth-middleware.ts), and `errorMiddleware` with
-- `raiseApiError` (backend/packages/shared-errors/src). Express and the check of a token are the
-- libraries'.
use Prim.Native.Char.{code}
use backend_sketch.Prelude.{ℕ, String, Option, none, some, ◌==◌, nat_eq, string_eq, if◌then◌else◌}
use backend_sketch.Prelude.Texts.{starts_with}
use backend_sketch.Api.{ErrorCode, auth_required, internal}
use backend_sketch.Accounts.{Failure, app, unique_violation, record_not_found}
use backend_sketch.Accounts.Auth.{JwtPayload}

-- A response with an error, or the request goes on with its user.
pub record ErrorResponse : Type 0 where
  pub status : ℕ
  pub code : ErrorCode
  pub message : String

pub data Passage : Type 0 where
  refused : ErrorResponse → Passage
  passed : JwtPayload → Passage

-- The text before the first space.
unfoldable pub first_word : String → String
first_word String.[] = ""
first_word (String.◌∷◌ c s) =
    let rest = first_word s in if code c == 32 then "" else String.◌∷◌ c rest

-- `split(' ')[1]`: none where no space stands in the text.
unfoldable pub second_word : String → Option String
unfolding first_word
second_word String.[] = none
second_word (String.◌∷◌ c s) =
    let rest = second_word s in if code c == 32 then some (first_word s) else rest

abbrev pub unauthorized : String → Passage
unauthorized message = refused (record { status = 401; code = auth_required; message = message })

unfoldable pub auth_middleware : (String → Option JwtPayload) → Option String → Passage
unfolding starts_with second_word
auth_middleware verify_token none = unauthorized "Missing or invalid token"
auth_middleware verify_token (some header) =
    if starts_with "Bearer " header
    then elim (second_word header) [
      | none ↦ unauthorized "Token expired or invalid"
      | some token ↦ elim (verify_token token) [
        | none ↦ unauthorized "Token expired or invalid"
        | some user ↦ passed user
      ]
    ]
    else unauthorized "Missing or invalid token"

unfoldable pub error_middleware : Failure → ErrorResponse
error_middleware (app e) = record { status = e.status_code; code = e.code; message = e.message }
error_middleware unique_violation = record {
  status = 500;
  code = internal;
  message = "Internal server error";
}
error_middleware record_not_found = record {
  status = 500;
  code = internal;
  message = "Internal server error";
}
