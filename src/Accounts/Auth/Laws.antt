-- ===== src/Accounts/Auth/Laws.antt =====
-- Registration keeps the accounts apart, and what was registered can be used to log in.
use backend_sketch.Prelude.{
  ℕ, ◌≡◌, refl, sym, ap, subst, Bool, true, false, String, none, some, some_inj, List, [], ◌∷◌,
  ◌++◌, any, ◌==◌, string_eq, ltb, arith, Bool-cases, Option-cases, inl, inr, All, AllPairs,
  All_of_any-false, test_of_eq, eq_of_test,
}
use backend_sketch.Prelude.Result.{Result, ok, ok_inj}
use backend_sketch.Api.{to_user_dto}
use backend_sketch.Db.{User}
use backend_sketch.Accounts.{
  Failure, Value, text, truthy, falsy, is_truthy, nonempty_string, is_username, is_email,
  code_units, takes, find_user_by_email_or_username, find_user_by_email, create_user,
}
use backend_sketch.Accounts.Auth.{
  RegisterBody, AuthResponse, Registration, registration_of, register, login, authenticate, respond,
  new_user,
}

-- No two rows share an identifier, a name or an address.
abbrev pub Apart : List User → Type 0
Apart users = AllPairs (λ a b. takes a b ≡ false) users

takes_sym : (u v : User) → takes u v ≡ false → takes v u ≡ false
unfolding takes
takes_sym u v h = ground (arith, h)

All_end :
    (v : User) (u : User) (users : List User)
    → All (λ w. takes u w ≡ false) users
    → takes u v ≡ false
    → All (λ w. takes u w ≡ false) (users ++ v ∷ [])
All_end v u [] h e = (e, tt)
All_end v u (w ∷ users) h e = (h.0, All_end v u users h.1 e)

append-Apart :
    (v : User) (users : List User)
    → Apart users
    → All (λ w. takes v w ≡ false) users
    → Apart (users ++ v ∷ [])
append-Apart v [] a h = (tt, tt)
append-Apart v (w ∷ users) a h =
    (All_end v w users a.0 (takes_sym v w h.0), append-Apart v users a.1 h.1)

given_text :
    (v : Value) (t : String) → nonempty_string v ≡ some t → (v ≡ text t) × (is_truthy v ≡ true)
unfolding nonempty_string is_truthy
given_text (text s) t h = elim (Bool-cases (s == "")) [
  | inl blank ↦ absurd (cc (rw (blank, nonempty_string) at h))
  | inr full ↦ (ap text (some_inj (rw (full, nonempty_string) at h)), ground (arith, full))
]
given_text (truthy s) t h = absurd (cc h)
given_text falsy t h = absurd (cc h)

given_login :
    (body : RegisterBody) (r : Registration)
    → registration_of body ≡ some r
    → (nonempty_string body.email ≡ some r.email)
      × (nonempty_string body.password ≡ some r.password)
unfolding registration_of
given_login body r h = elim (Option-cases (nonempty_string body.username)) [
  | inl a ↦ absurd (cc (rw (a, registration_of) at h))
  | inr (username, a) ↦ elim (Option-cases (nonempty_string body.email)) [
    | inl b ↦ absurd (cc (rw (a, b, registration_of) at h))
    | inr (email, b) ↦ elim (Option-cases (nonempty_string body.password)) [
      | inl c ↦ absurd (cc (rw (a, b, c, registration_of) at h))
      | inr (password, c) ↦ elim (Option-cases (nonempty_string body.display_name)) [
        | inl d ↦ absurd (cc (rw (a, b, c, d, registration_of) at h))
        | inr (display_name, d) ↦
            let same = some_inj (rw (a, b, c, d, registration_of) at h) in
            (
              rw b (ap (λ (x : Registration). some x.email) same),
              rw c (ap (λ (x : Registration). some x.password) same),
            )
      ]
    ]
  ]
]

find_new :
    (u : User) (users : List User)
    → any (λ v. takes u v) users ≡ false
    → find_user_by_email u.email (users ++ u ∷ []) ≡ some u
unfolding find_user_by_email takes
find_new u [] h = ground (arith, test_of_eq u.email u.email refl)
find_new u (v ∷ users) h = elim (Bool-cases (v.email == u.email)) [
  | inl same ↦
      absurd (ground (arith, h, same, eq_of_test v.email u.email same, test_of_eq u.email v.email))
  | inr apart ↦ rw apart (find_new u users (ground (arith, h)))
]

module _ (hash : String → String) (compare : String → String → Bool)
    (sign_token : ℕ → String → String → String) (at : ℕ) where
  -- What a registration that succeeds was, and did.
  abbrev Registered :
      String → ℕ → RegisterBody → List User → List User → AuthResponse × List User → Type 0
  Registered id now body before users done =
      (r : Registration) × (registration_of body ≡ some r)
      × (find_user_by_email_or_username r.email r.username before ≡ none)
      × (is_username r.username ≡ true)
      × (is_email r.email ≡ true)
      × (ltb (code_units r.password) 8 ≡ false)
      × (any (λ v. takes (new_user hash compare sign_token at id now r) v) users ≡ false)
      × (done ≡ (
        respond hash compare sign_token at (new_user hash compare sign_token at id now r),
        users ++ new_user hash compare sign_token at id now r ∷ [],
      ))

  registered :
      (id : String) (now : ℕ) (body : RegisterBody) (before users : List User)
      (done : AuthResponse × List User)
      → register hash compare sign_token at id now body before users ≡ ok done
      → Registered id now body before users done
  unfolding register create_user
  registered id now body before users done h = elim (Option-cases (registration_of body)) [
    | inl a ↦ absurd (cc (rw (a, register) at h))
    | inr (r, a) ↦ elim (Bool-cases (is_username r.username)) [
      | inr b ↦ absurd (cc (rw (a, b, register) at h))
      | inl b ↦ elim (Bool-cases (is_email r.email)) [
        | inr c ↦ absurd (cc (rw (a, b, c, register) at h))
        | inl c ↦ elim (Bool-cases (ltb (code_units r.password) 8)) [
          | inl d ↦ absurd (cc (rw (a, b, c, d, register) at h))
          | inr d ↦ elim (Option-cases (find_user_by_email_or_username r.email r.username before)) [
            | inr (u, e) ↦ absurd (cc (rw (a, b, c, d, e, register) at h))
            | inl e ↦
                elim (Bool-cases
                  (any (λ v. takes (new_user hash compare sign_token at id now r) v) users)) [
                    | inl f ↦ absurd (cc (rw (a, b, c, d, e, f, register) at h))
                    | inr f ↦
                        (r, a, e, b, c, d, f, sym (ok_inj (rw (a, b, c, d, e, f, register) at h)))
                  ]
          ]
        ]
      ]
    ]
  ]

  -- A registration that succeeds adds one row, answers it, and keeps rows apart that were apart, whatever
  -- was written while the password was hashed.
  pub register-Apart :
      (id : String) (now : ℕ) (body : RegisterBody) (before users : List User)
      (done : AuthResponse × List User)
      → Apart users
      → register hash compare sign_token at id now body before users ≡ ok done
      → Apart done.1 × ((u : User) × (done.1 ≡ users ++ u ∷ []) × (done.0.user ≡ to_user_dto u))
  unfolding respond
  register-Apart id now body before users done a h =
      let r = registered id now body before users done h in
      let u = new_user hash compare sign_token at id now r.0 in
      let e : done ≡ (respond hash compare sign_token at u, users ++ u ∷ []) = r.7 in
      (
        subst (λ d. Apart d) (sym (ap (λ x. x.1) e))
            (append-Apart u users a (All_of_any-false (λ v. takes u v) users r.6)),
        (u, ap (λ x. x.1) e, ap (λ x. x.0.user) e),
      )

  logs_in :
      (e p : Value) (email password : String) (users : List User) (row : User)
      → (e ≡ text email) × (is_truthy e ≡ true)
      → (p ≡ text password) × (is_truthy p ≡ true)
      → find_user_by_email email users ≡ some row
      → compare password row.password ≡ true
      → login hash compare sign_token at (record { email = e; password = p }) users
        ≡ ok (respond hash compare sign_token at row)
  unfolding login authenticate
  logs_in e p email password users row he hp found same =
      rw (he.1, hp.1, he.0, found, hp.0, same, login) refl

module _ (hash : String → String) (compare : String → String → Bool)
    (sign_token : ℕ → String → String → String) (at later : ℕ) where
  -- The answers of a registration and of a later login for one account: the same user, each with a
  -- token that is signed for that user at its own time.
  abbrev pub Answers : AuthResponse × List User → Result Failure AuthResponse → Type 0
  Answers done answer =
      (answer
        ≡ ok (record {
          token = sign_token later done.0.user.id done.0.user.username;
          user = done.0.user;
        }))
      × (done.0.token ≡ sign_token at done.0.user.id done.0.user.username)

  -- Where a password compares as equal to its own hash, the account that a registration made is the one
  -- that its address and password log in to: the login answers the same user, and the token of each
  -- answer is signed for that user at the time of that answer.
  pub register-login :
      (id : String) (now : ℕ) (body : RegisterBody) (before users : List User)
      (done : AuthResponse × List User)
      → ((password : String) → compare password (hash password) ≡ true)
      → register hash compare sign_token at id now body before users ≡ ok done
      → Answers done (
          login hash compare sign_token later
            (record { email = body.email; password = body.password })
            done.1)
  unfolding new_user respond to_user_dto
  register-login id now body before users done same h =
      let r = registered hash compare sign_token at id now body before users done h in
      let u = new_user hash compare sign_token at id now r.0 in
      let e : done ≡ (respond hash compare sign_token at u, users ++ u ∷ []) = r.7 in
      let g = given_login body r.0 r.1 in
      subst
        (λ (d : AuthResponse × List User). Answers d (
          login hash compare sign_token later
            (record { email = body.email; password = body.password }) d.1))
        (sym e)
        (
          logs_in hash compare sign_token later body.email body.password r.0.email r.0.password
              (users ++ u ∷ []) u (given_text body.email r.0.email g.0)
              (given_text body.password r.0.password g.1) (find_new u users r.6)
              (same r.0.password),
          refl,
        )
