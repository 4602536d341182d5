-- ===== src/Accounts/Tokens.antt =====
-- The token of an answer passes the middleware, and the failures of the accounts as the client gets
-- them.
use Prim.Native.String
use Prim.Native.String.append
use Prim.Native.Char.{code}
use native.Mathlib.Decide.{ℕ_discrete}
use backend_sketch.Prelude.{
  ℕ, str_discrete, ◌≡◌, refl, sym, ap, subst, Bool, true, false, not, String, Option, some,
  some_inj, List, ◌==◌, nat_eq, string_eq, if◌then◌else◌, ◌&&◌, arith, Bool-cases, Option-cases,
  inl, inr, eq_of_test, All, All_of_find,
}
use backend_sketch.Prelude.Result.{ok, ok_inj}
use backend_sketch.Prelude.Texts.{starts_after}
use backend_sketch.Db.{User}
use backend_sketch.Accounts.{Value, text, truthy, falsy, is_truthy, find_user_by_email}
use backend_sketch.Accounts.Auth.{AuthResponse, JwtPayload, authenticate, login, respond}
use backend_sketch.Accounts.Http.{passed, first_word, second_word, auth_middleware}

-- A text without a space, as every token.
unfoldable pub spaceless : String → Bool
spaceless String.[] = true
spaceless (String.◌∷◌ c s) = not (code c == 32) && spaceless s

first_word-spaceless : (s : String) → spaceless s ≡ true → first_word s ≡ s
unfolding spaceless first_word
first_word-spaceless String.[] h = refl
first_word-spaceless (String.◌∷◌ c s) h = ground (arith, first_word-spaceless s, h)

-- The first space of the text is its end.
unfoldable ends_in_space : String → Bool
ends_in_space String.[] = false
ends_in_space (String.◌∷◌ c s) = if code c == 32 then s == "" else ends_in_space s

second_word_after :
    (p t : String) → ends_in_space p ≡ true → second_word (String.◌++◌ p t) ≡ some (first_word t)
unfolding second_word ends_in_space
second_word_after String.[] t h = absurd (cc h)
second_word_after (String.◌∷◌ c p) t h = elim (Bool-cases (code c == 32)) [
  | inl space ↦
      let e : p ≡ "" = eq_of_test p "" (rw (space, ends_in_space) at h) in
      rw (append.cons c p t, space, e, append.nil t, second_word) refl
  | inr other ↦
      rw (append.cons c p t, other, second_word)
        (second_word_after p t (rw (other, ends_in_space) at h))
]

second_word_bearer :
    (t : String) → spaceless t ≡ true → second_word (String.◌++◌ "Bearer " t) ≡ some t
unfolding ends_in_space ℕ_discrete str_discrete
second_word_bearer t h =
    rw (second_word_after "Bearer " t refl) (ap some (first_word-spaceless t h))

module _ (hash : String → String) (compare : String → String → Bool)
    (sign_token : ℕ → String → String → String) (at : ℕ)
    (verify_token : String → Option JwtPayload) where
  -- The account that a login opens.
  abbrev pub Opens : Value → Value → List User → AuthResponse → Type 0
  Opens e p users r =
      (email password : String) × (row : User) × (e ≡ text email)
      × (p ≡ text password)
      × (find_user_by_email email users ≡ some row)
      × (compare password row.password ≡ true)
      × (r ≡ respond hash compare sign_token at row)

  opened :
      (e p : Value) (users : List User) (row : User)
      → authenticate hash compare sign_token at (record { email = e; password = p }) users
        ≡ some row
      → Opens e p users (respond hash compare sign_token at row)
  unfolding authenticate
  opened (text email) (text password) users row h =
      elim (Option-cases (find_user_by_email email users)) [
        | inl a ↦ absurd (cc (rw (a, authenticate) at h))
        | inr (found, a) ↦ elim (Bool-cases (compare password found.password)) [
          | inr b ↦ absurd (cc (rw (a, b, authenticate) at h))
          | inl b ↦
              let same : found ≡ row = some_inj (rw (a, b, authenticate) at h) in
              (
                email,
                password,
                found,
                refl,
                refl,
                a,
                b,
                ap (λ (x : User). respond hash compare sign_token at x) (sym same),
              )
        ]
      ]
  opened (text email) (truthy s) users row h =
      elim (Option-cases (find_user_by_email email users)) [
        | inl a ↦ absurd (cc (rw (a, authenticate) at h))
        | inr (found, a) ↦ absurd (cc (rw (a, authenticate) at h))
      ]
  opened (text email) falsy users row h = elim (Option-cases (find_user_by_email email users)) [
    | inl a ↦ absurd (cc (rw (a, authenticate) at h))
    | inr (found, a) ↦ absurd (cc (rw (a, authenticate) at h))
  ]
  opened (truthy s) p users row h = absurd (cc h)
  opened falsy p users row h = absurd (cc h)

  login-Opens :
      (e p : Value) (users : List User) (r : AuthResponse)
      → login hash compare sign_token at (record { email = e; password = p }) users ≡ ok r
      → Opens e p users r
  unfolding login
  login-Opens e p users r h = elim (Bool-cases (is_truthy e && is_truthy p)) [
    | inr blank ↦ absurd (cc (rw (blank, login) at h))
    | inl full ↦
        elim (Option-cases
          (authenticate hash compare sign_token at (record { email = e; password = p }) users)) [
            | inl a ↦ absurd (cc (rw (full, a, login) at h))
            | inr (row, a) ↦
                subst (λ x. Opens e p users x) (ok_inj (rw (full, a, login) at h))
                  (opened e p users row a)
          ]
  ]

  -- The token of a row has no space in it and is verified as the row's.
  abbrev pub Signed : User → Type 0
  Signed u =
      (spaceless (sign_token at u.id u.username) ≡ true)
      × (verify_token (sign_token at u.id u.username)
          ≡ some (record { user_id = u.id; username = u.username }))

  find-Signed :
      (e : Value) (users : List User) (row : User) (email : String)
      → All Signed users
      → find_user_by_email email users ≡ some row
      → Signed row
  unfolding find_user_by_email
  find-Signed e users row email signed found =
      All_of_find Signed (λ u. u.email == email) users signed found

  -- Where every row's token is verified as its own, a token that a login gives is for a user
  -- whose stored password the given one matches, and a request with it in its header passes the
  -- middleware as that user.
  pub login_passes :
      (e p : Value) (users : List User) (r : AuthResponse)
      → All Signed users
      → login hash compare sign_token at (record { email = e; password = p }) users ≡ ok r
      → (email password : String) × (row : User) × (e ≡ text email)
        × (p ≡ text password)
        × (find_user_by_email email users ≡ some row)
        × (compare password row.password ≡ true)
        × (auth_middleware verify_token (some (String.◌++◌ "Bearer " r.token))
            ≡ passed (record { user_id = row.id; username = row.username }))
  unfolding auth_middleware respond
  login_passes e p users r signed h =
      let o = login-Opens e p users r h in
      let row : User = o.2 in
      let g = find-Signed e users row o.0 signed o.5 in
      let token = sign_token at row.id row.username in
      let same : r.token ≡ token = ap (λ (x : AuthResponse). x.token) o.7 in
      (
        o.0,
        o.1,
        row,
        o.3,
        o.4,
        o.5,
        o.6,
        rw (same, starts_after "Bearer " token, second_word_bearer token g.0, g.1, auth_middleware)
            refl,
      )
