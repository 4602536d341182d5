-- ===== src/Chats/Rooms/Members.antt =====
-- The members of a new group chat.
use mathlib.Core.List.{map}
use backend_sketch.Prelude.{
  ℕ, ◌≡◌, ◌≢◌, refl, subst, eq_of_test, ◌||◌, true, String, List, [], ◌∷◌, ◌++◌, any, All, All_imp,
  All_any_self, test_self, AllPairs, arith, Bool-cases, inl, inr, ◌==◌, string_eq,
}
use backend_sketch.Db.{Db, RoomMember, is_member}
use backend_sketch.Chats.Rooms.{unique, open_group_chat, create_room}

-- Nothing that was passed comes again.
unique-apart :
    (y : String) (seen xs : List String)
    → any (λ s. s == y) seen ≡ true
    → All (λ x. ◌≢◌ y x) (unique seen xs)
unfolding unique
unique-apart y seen [] h = tt
unique-apart y seen (x ∷ xs) h = elim (Bool-cases (any (λ s. s == x) seen)) [
  | inl known ↦ rw (known, unique) (unique-apart y seen xs h)
  | inr new ↦ rw (new, unique) (ground arith, unique-apart y (x ∷ seen) xs (ground arith))
]

unique-AllPairs : (seen xs : List String) → AllPairs ◌≢◌ (unique seen xs)
unfolding unique
unique-AllPairs seen [] = tt
unique-AllPairs seen (x ∷ xs) = elim (Bool-cases (any (λ s. s == x) seen)) [
  | inl known ↦ rw (known, unique) (unique-AllPairs seen xs)
  | inr new ↦
      rw (new, unique) (unique-apart x (x ∷ seen) xs (ground arith), unique-AllPairs (x ∷ seen) xs)
]

any_of_same :
    (u x : String) (xs : List String)
    → any (λ s. s == x) xs ≡ true
    → (x == u) ≡ true
    → any (λ s. s == u) xs ≡ true
any_of_same u x xs h e = subst (λ y. any (λ s. s == y) xs ≡ true) (eq_of_test x u e) h

-- Each of the rows that were made makes a member.
is_member_added :
    (room u : String) (ms : List RoomMember) (us : List String)
    → any (λ x. x == u) us ≡ true
    → is_member u room (ms ++ map (λ u. record { user_id = u; room_id = room }) us) ≡ true
unfolding is_member
is_member_added room u [] [] h = absurd (cc h)
is_member_added room u [] (x ∷ us) h = ground (arith, is_member_added room u [] us)
is_member_added room u (m ∷ ms) us h = ground (arith, is_member_added room u ms us h)

-- What is passed or was seen, and nothing else, is among what was seen and the rest.
any-unique :
    (u : String) (seen xs : List String)
    → (any (λ x. x == u) seen || any (λ x. x == u) (unique seen xs))
      ≡ (any (λ x. x == u) seen || any (λ x. x == u) xs)
unfolding unique
any-unique u seen [] = refl
any-unique u seen (x ∷ xs) = elim (Bool-cases (any (λ s. s == x) seen)) [
  | inl known ↦
      rw (known, unique) (ground (arith, any-unique u seen xs, any_of_same u x seen known))
  | inr new ↦ rw (new, unique) (ground (arith, any-unique u (x ∷ seen) xs))
]

-- A new group chat lists its maker first, everyone who was named and nobody else, nobody twice, and
-- everyone that it lists is a member of its room in the tables.
pub open_group_chat_members :
    (decimal : ℕ → String) (id : String) (now : ℕ) (user_id : String) (db : Db) (name : String)
    (ids : List String)
    → let c = open_group_chat decimal id now user_id db name ids in
      AllPairs ◌≢◌ c.body.member_ids
      × All (λ u. is_member u id c.db.members ≡ true) c.body.member_ids
      × ((rest : List String) × (c.body.member_ids ≡ user_id ∷ rest))
      × ((u : String) → any (λ x. x == u) c.body.member_ids ≡ any (λ x. x == u) (user_id ∷ ids))
unfolding open_group_chat create_room unique
open_group_chat_members decimal id now user_id db name ids = (
  unique-AllPairs [] (user_id ∷ ids),
  All_imp (unique [] (user_id ∷ ids))
      (λ u h. is_member_added id u db.members (unique [] (user_id ∷ ids)) h)
      (All_any_self (λ y x. y == x) (unique [] (user_id ∷ ids)) [] test_self),
  (unique (user_id ∷ []) ids, refl),
  λ u. any-unique u [] (user_id ∷ ids),
)
