-- ===== src/Accounts/Profiles.antt =====
-- A change of the profile, as it is read back: `updateMe` and `getUserById` of
-- backend/services/user-service/src/modules/users/users.service.ts.
use backend_sketch.Prelude.{
  ◌≡◌, refl, sym, ap, subst, false, String, Option, none, some, some_inj, List, [], ◌∷◌, ◌==◌,
  string_eq, ◌||◌, Bool-cases, Option-cases, inl, inr, eq_of_test, test_of_eq,
}
use backend_sketch.Prelude.Result.{ok, ok_inj, Result-cases}
use backend_sketch.Api.{UserDto, to_user_dto}
use backend_sketch.Db.{User}
use backend_sketch.Accounts.{is_truthy, find_user_by_id, rename, update_user}
use backend_sketch.Accounts.Users.{ProfileBody, new_name, get_user_by_id, update_me}

-- The row with another name, where there is one.
unfoldable renamed : Option String → User → User
renamed name u = record u { display_name = elim name [ none ↦ u.display_name | some n ↦ n ] }

not_other : (id j k : String) → k ≡ id → (j == id) ≡ false → (k == j) ≡ false
not_other id j k e apart = elim (Bool-cases (k == j)) [
  | inr away ↦ away
  | inl same ↦
      absurd (let d = eq_of_test k j same in let g : j ≡ id = cc in let t = test_of_eq j id g in cc)
]

find-rename-other :
    (id j : String) (name : Option String) (users : List User)
    → (j == id) ≡ false
    → find_user_by_id j (rename id name users) ≡ find_user_by_id j users
unfolding find_user_by_id rename
find-rename-other id j name [] apart = refl
find-rename-other id j name (u ∷ users) apart = elim (Bool-cases (u.id == id)) [
  | inl here ↦
      let e : u.id ≡ id = eq_of_test u.id id here in
      let other : (u.id == j) ≡ false = not_other id j u.id e apart in
      rw (here, other) (find-rename-other id j name users apart)
  | inr away ↦ elim (Bool-cases (u.id == j)) [
    | inl found ↦ rw (away, found) refl
    | inr lost ↦ rw (away, lost) (find-rename-other id j name users apart)
  ]
]

find-rename-same :
    (id : String) (name : Option String) (users : List User) (u : User)
    → find_user_by_id id users ≡ some u
    → find_user_by_id id (rename id name users) ≡ some (renamed name u)
unfolding find_user_by_id rename renamed
find-rename-same id name [] u h = absurd (cc h)
find-rename-same id name (v ∷ users) u h = elim (Bool-cases (v.id == id)) [
  | inl here ↦
      let e : v ≡ u = some_inj (rw (here, find_user_by_id) at h) in
      rw (here, here) (ap (λ x. some (renamed name x)) e)
  | inr apart ↦
      rw (apart, apart) (find-rename-same id name users u (rw (apart, find_user_by_id) at h))
]

rename-none : (id : String) (users : List User) → rename id none users ≡ users
unfolding rename
rename-none id [] = refl
rename-none id (u ∷ users) = elim (Bool-cases (u.id == id)) [
  | inl here ↦ rw (here, rename-none id users) refl
  | inr apart ↦ rw (apart, rename-none id users) refl
]

update_user_done :
    (id : String) (name : Option String) (users : List User) (made : User × List User)
    → update_user id name users ≡ ok made
    → (u : User) × (find_user_by_id id users ≡ some u)
      × (made ≡ (renamed name u, rename id name users))
unfolding update_user renamed
update_user_done id name users made h = elim (Option-cases (find_user_by_id id users)) [
  | inl a ↦ absurd (cc (rw (a, update_user) at h))
  | inr (u, a) ↦ (u, a, sym (ok_inj (rw (a, update_user) at h)))
]

-- What the body asks for the name of a row.
unfoldable pub Named : Option String → UserDto → List User → List User → Type 0
Named none answer before after = after ≡ before
Named (some n) answer before after = answer.display_name ≡ n

Named-rename :
    (id : String) (name : Option String) (u : User) (users : List User)
    → Named name (to_user_dto (renamed name u)) users (rename id name users)
unfolding Named renamed to_user_dto
Named-rename id none u users = rename-none id users
Named-rename id (some n) u users = refl

unfoldable pub ReadBack : String → ProfileBody → List User → UserDto × List User → Type 0
ReadBack id body users done =
    (get_user_by_id id done.1 ≡ ok done.0)
    × ((j : String) → (j == id) ≡ false → get_user_by_id j done.1 ≡ get_user_by_id j users)
    × Named (new_name body.display_name) done.0 users done.1

read_back :
    (id : String) (body : ProfileBody) (users : List User) (u : User)
    → find_user_by_id id users ≡ some u
    → ReadBack id body users (
      to_user_dto (renamed (new_name body.display_name) u),
      rename id (new_name body.display_name) users,
    )
unfolding ReadBack get_user_by_id
read_back id body users u h =
    let name = new_name body.display_name in
    (
      rw (find-rename-same id name users u h, get_user_by_id) refl,
      λ j apart. rw (find-rename-other id j name users apart, get_user_by_id) refl,
      Named-rename id name u users,
    )

-- A profile that was changed is read back as the answer said, with the name that was asked for; the
-- other accounts are read as before. A body with no name changes nothing, with an avatar or not.
pub update_me-ReadBack :
    (id : String) (body : ProfileBody) (users : List User) (done : UserDto × List User)
    → update_me id body users ≡ ok done
    → ReadBack id body users done
unfolding update_me
update_me-ReadBack id body users done h =
    elim (Bool-cases (is_truthy body.display_name || is_truthy body.avatar_url)) [
      | inr blank ↦ absurd (cc (rw (blank, update_me) at h))
      | inl asked ↦ elim (Result-cases (update_user id (new_name body.display_name) users)) [
        | inl (e, a) ↦ absurd (cc (rw (asked, a, update_me) at h))
        | inr (made, a) ↦
            let w = update_user_done id (new_name body.display_name) users made a in
            let e : (to_user_dto made.0, made.1) ≡ done = ok_inj (rw (asked, a, update_me) at h) in
            let m : made ≡ (
              renamed (new_name body.display_name) w.0,
              rename id (new_name body.display_name) users,
            ) =
              w.2 in
            subst (λ d. ReadBack id body users d) e
              (subst (λ (d : User × List User). ReadBack id body users (to_user_dto d.0, d.1))
                (sym m) (read_back id body users w.0 w.1))
      ]
    ]
