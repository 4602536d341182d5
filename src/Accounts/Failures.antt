-- ===== src/Accounts/Failures.antt =====
-- The failures of a registration, and what a change of the profile does.
use backend_sketch.Prelude.{
  test_turned, ℕ, ◌≡◌, refl, subst, Bool, false, not, String, none, some, List, [], ◌∷◌, any, ◌==◌,
  string_eq, ◌&&◌, ◌||◌, ltb, arith, Bool-cases, Option-cases, inl, inr, ◌⊎◌,
}
use backend_sketch.Prelude.Result.{Result, err, err_inj}
use backend_sketch.Api.{conflict, validation_failed}
use backend_sketch.Db.{User}
use backend_sketch.Accounts.{
  is_username, is_email, code_units, Failure, takes, find_user_by_email_or_username, create_user,
}
use backend_sketch.Accounts.Auth.{
  RegisterBody, AuthResponse, Registration, registration_of, register, new_user, taken,
}
use backend_sketch.Accounts.Http.{error_middleware}

-- The identifier is of no row.
abbrev pub Fresh : String → List User → Type 0
Fresh id users = any (λ v. v.id == id) users ≡ false

free_to_take :
    (u : User) (users : List User)
    → Fresh u.id users
    → find_user_by_email_or_username u.email u.username users ≡ none
    → any (λ v. takes u v) users ≡ false
unfolding find_user_by_email_or_username takes
free_to_take u [] f h = refl
free_to_take u (v ∷ users) f h =
    elim (Bool-cases ((v.email == u.email) || (v.username == u.username))) [
      | inl found ↦ absurd (cc (rw (found, find_user_by_email_or_username) at h))
      | inr apart ↦
          let rest =
            free_to_take u users (ground (arith, f))
              (rw (apart, find_user_by_email_or_username) at h) in
          let i = test_turned v.id u.id (ground (arith, f)) in
          let n = test_turned v.username u.username (ground (arith, apart)) in
          let m = test_turned v.email u.email (ground (arith, apart)) in rw (i, n, m) rest
    ]

-- What is wrong with the fields of a body.
abbrev pub Invalid : RegisterBody → Type 0
Invalid body =
    (registration_of body ≡ none)
    ⊎ ((r : Registration) × (registration_of body ≡ some r)
        × ((is_username r.username && (is_email r.email && not (ltb (code_units r.password) 8)))
            ≡ false))

abbrev Refusal : RegisterBody → List User → Failure → Type 0
Refusal body users f =
    (((error_middleware f).status ≡ 400)
      × ((error_middleware f).code ≡ validation_failed)
      × Invalid body)
    ⊎ (((error_middleware f).status ≡ 409)
        × ((error_middleware f).code ≡ conflict)
        × ((r : Registration) × (u : User) × (registration_of body ≡ some r)
            × (find_user_by_email_or_username r.email r.username users ≡ some u)))

refused_as :
    (body : RegisterBody) (users : List User) (f g : Failure)
    → ◌≡◌ {A = Result Failure (AuthResponse × List User)} (err g) (err f)
    → Refusal body users g
    → Refusal body users f
refused_as body users f g e r = subst (λ x. Refusal body users x) (err_inj e) r

module _ (hash : String → String) (compare : String → String → Bool)
    (sign_token : ℕ → String → String → String) (at : ℕ) where
  -- With a new identifier and no other registration in between, a registration fails only as the
  -- routes mean it to: 400 where the fields are wrong, 409 where the name or the address is taken.
  pub register_refusals :
      (id : String) (now : ℕ) (body : RegisterBody) (users : List User) (f : Failure)
      → Fresh id users
      → register hash compare sign_token at id now body users users ≡ err f
      → (((error_middleware f).status ≡ 400)
          × ((error_middleware f).code ≡ validation_failed)
          × Invalid body)
        ⊎ (((error_middleware f).status ≡ 409)
            × ((error_middleware f).code ≡ conflict)
            × ((r : Registration) × (u : User) × (registration_of body ≡ some r)
                × (find_user_by_email_or_username r.email r.username users ≡ some u)))
  unfolding register create_user new_user taken error_middleware
  register_refusals id now body users f fresh h = elim (Option-cases (registration_of body)) [
    | inl a ↦ refused_as body users f _ (rw (a, register) at h) (inl (refl, refl, inl a))
    | inr (r, a) ↦ elim (Bool-cases (is_username r.username)) [
      | inr b ↦
          refused_as body users f _ (rw (a, b, register) at h)
            (inl (refl, refl, inr (r, a, ground (arith, b))))
      | inl b ↦ elim (Bool-cases (is_email r.email)) [
        | inr c ↦
            refused_as body users f _ (rw (a, b, c, register) at h)
              (inl (refl, refl, inr (r, a, ground (arith, c))))
        | inl c ↦ elim (Bool-cases (ltb (code_units r.password) 8)) [
          | inl d ↦
              refused_as body users f _ (rw (a, b, c, d, register) at h)
                (inl (refl, refl, inr (r, a, ground (arith, d))))
          | inr d ↦ elim (Option-cases (find_user_by_email_or_username r.email r.username users)) [
            | inr (u, e) ↦
                refused_as body users f _ (rw (a, b, c, d, e, register) at h)
                  (inr (refl, refl, (r, u, a, e)))
            | inl e ↦
                let g = free_to_take (new_user hash compare sign_token at id now r) users fresh e in
                absurd (cc (rw (a, b, c, d, e, g, register) at h))
          ]
        ]
      ]
    ]
  ]
