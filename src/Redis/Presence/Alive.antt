-- ===== src/Redis/Presence/Alive.antt =====
-- The test of `isUserOnline` on the store: some connection of the user has a key that stands.
use Prim.Native.String
use native.Mathlib.Decide.{ℕ_discrete}
use backend_sketch.Prelude.{
  ℕ, ◌≡◌, refl, sym, ap, ◌∙◌, subst, Bool, true, false, not, String, Option, none, some, List, [],
  ◌∷◌, any, ◌==◌, string_eq, if◌then◌else◌, ◌||◌, arith, Bool-cases, Option-cases, inl, inr,
  eq_of_test,
}
use backend_sketch.Prelude.JsMap.{JsMap, get-set, get-delete}
use backend_sketch.Prelude.JsMap
use backend_sketch.RoomEvents.{truthy}
use backend_sketch.Prelude.Texts.{starts_with, starts_after, differ, starts_off}
use backend_sketch.Redis.{
  text, set, Entry, Store, has_expired, get_entry, get, text_of, get_set, s_rem, remove_from,
  remove_members, write_left, s_members,
}
use backend_sketch.Redis.Entries.{
  Content-cases, set_of_store, text_of_store, get_entry-cases, get_entry-other, get-set_other,
}
use backend_sketch.Redis.Presence.{
  connection_key, user_connections_key, check_connection, check_connections, check_all,
  is_user_online,
}

-- The entry is a text that is not empty, and its time has not come.
unfoldable pub live_text : ℕ → Entry → Bool
live_text now e =
    if has_expired now e then false else elim e.value [ text t ↦ not (t == "") | set _ ↦ false ]

unfoldable pub alive : ℕ → String → Store → Bool
unfolding live_text
alive now c s = elim (JsMap.get (connection_key c) s) [ none ↦ false | some e ↦ live_text now e ]

is_some : Option String → Bool
is_some none = false
is_some (some t) = true

is_some-truthy : (t : String) → is_some (truthy (some t)) ≡ not (t == "")
unfolding is_some truthy
is_some-truthy t = ground arith

-- A user's key is no connection's.
prefixes_differ : differ "presence:conn:" "presence:user:" ≡ true
unfolding differ ℕ_discrete
prefixes_differ = refl

pub keys_apart : (u c : String) → (user_connections_key u == connection_key c) ≡ false
unfolding user_connections_key connection_key
keys_apart u c = elim (Bool-cases (user_connections_key u == connection_key c)) [
  | inr apart ↦ apart
  | inl same ↦
      let e = eq_of_test (user_connections_key u) (connection_key c) same in
      let not_one =
        starts_off "presence:conn:" "presence:user:" (String.◌++◌ u ":connections")
          prefixes_differ in
      let one = starts_after "presence:conn:" c in
      absurd (let d = subst (λ t. starts_with "presence:conn:" t ≡ true) (sym e) one in cc)
]

text_alive : Option String → Bool
text_alive t = is_some (truthy t)

dead_text : (now : ℕ) (e : Entry) → has_expired now e ≡ true → live_text now e ≡ false
unfolding live_text
dead_text now e dead = rw (dead, live_text) refl

live_text-text :
    (now : ℕ) (s : Store) (e : Entry)
    → has_expired now e ≡ false
    → live_text now e ≡ is_some (truthy (text_of (s, some e)).1)
unfolding live_text text_of truthy is_some
live_text-text now s e live = elim (Content-cases e.value) [
  | inl (t, v) ↦ rw (live, v, live_text) (ground arith)
  | inr (xs, v) ↦ rw (live, v, live_text) refl
]

found_alive :
    (now : ℕ) (c : String) (s : Store)
    → is_some (truthy (get now (connection_key c) s).1) ≡ alive now c s
unfolding get alive is_some truthy
found_alive now c s = elim (get_entry-cases now (connection_key c) s) [
  | inl (a, r) ↦ ap (λ x. is_some (truthy (text_of x).1)) r ∙ rw (a, alive) refl
  | inr (e, a, inl (dead, r)) ↦
      ap (λ x. is_some (truthy (text_of x).1)) r ∙ (sym (dead_text now e dead) ∙ rw (a, alive) refl)
  | inr (e, a, inr (live, r)) ↦
      ap (λ x. is_some (truthy (text_of x).1)) r
      ∙ (sym (live_text-text now s e live) ∙ rw (a, alive) refl)
]

-- What a store says of a key is all that decides.
pub alive_same :
    (now : ℕ) (c : String) (s s' : Store)
    → JsMap.get (connection_key c) s' ≡ JsMap.get (connection_key c) s
    → alive now c s' ≡ alive now c s
unfolding alive
alive_same now c s s' h =
    ap (λ (x : Option Entry). elim x as (λ _. Bool) [ none ↦ false | some e ↦ live_text now e ]) h

-- A read changes nothing of it.
alive-get_entry :
    (now : ℕ) (key c : String) (s : Store) → alive now c (get_entry now key s).0 ≡ alive now c s
unfolding alive
alive-get_entry now key c s = elim (Bool-cases (key == connection_key c)) [
  | inr apart ↦
      alive_same now c s (get_entry now key s).0
        (get_entry-other now key (connection_key c) s apart)
  | inl same ↦ elim (get_entry-cases now key s) [
    | inl (a, r) ↦ ap (λ x. alive now c x.0) r
    | inr (e, a, inr (live, r)) ↦ ap (λ x. alive now c x.0) r
    | inr (e, a, inl (dead, r)) ↦
        let k = eq_of_test key (connection_key c) same in
        let before : JsMap.get (connection_key c) s ≡ some e =
          subst (λ j. JsMap.get j s ≡ some e) k a in
        let after : JsMap.get (connection_key c) (JsMap.delete key s) ≡ none =
          ground (arith, get-delete key (connection_key c) s, same) in
        ap (λ x. alive now c x.0) r ∙ rw (after, before, alive) (sym (dead_text now e dead))
  ]
]

get_entry_of_get :
    (now : ℕ) (key : String) (s : Store) → (get now key s).0 ≡ (get_entry now key s).0
unfolding get
get_entry_of_get now key s = text_of_store (get_entry now key s)

write_left-other :
    (key j : String) (e : Entry) (r : List String × ℕ) (s : Store)
    → (key == j) ≡ false
    → JsMap.get j (write_left key e r s).0 ≡ JsMap.get j s
unfolding write_left
write_left-other key j e ([], n) s apart = ground (arith, get-delete key j s, apart)
write_left-other key j e (y ∷ ys, n) s apart =
    get-set_other key j (record e { value = set (y ∷ ys) }) s apart

remove_from-other :
    (key j : String) (ms : List String) (s : Store) (x : Option Entry)
    → (key == j) ≡ false
    → JsMap.get j (remove_from key ms (s, x)).0 ≡ JsMap.get j s
unfolding remove_from
remove_from-other key j ms s none apart = refl
remove_from-other key j ms s (some e) apart = elim (Content-cases e.value) [
  | inl (t, v) ↦ rw (v, remove_from) refl
  | inr (xs, v) ↦ rw (v, remove_from) (write_left-other key j e (remove_members ms xs) s apart)
]

pub alive-s_rem :
    (now : ℕ) (user c : String) (ms : List String) (s : Store)
    → alive now c (s_rem now (user_connections_key user) ms s).0 ≡ alive now c s
unfolding s_rem
alive-s_rem now user c ms s =
    alive_same now c (get_entry now (user_connections_key user) s).0
      (s_rem now (user_connections_key user) ms s).0
      (remove_from-other (user_connections_key user) (connection_key c) ms _ _ (keys_apart user c))
    ∙ alive-get_entry now (user_connections_key user) c s

check_connection-alive :
    (now : ℕ) (user c x : String) (s : Store)
    → (alive now x (check_connection now user (get now (connection_key c) s) c).0 ≡ alive now x s)
      × ((check_connection now user (get now (connection_key c) s) c).1 ≡ alive now c s)
unfolding check_connection is_some
check_connection-alive now user c x s =
    let read = get now (connection_key c) s in
    let kept : alive now x read.0 ≡ alive now x s =
      ap (λ r. alive now x r) (get_entry_of_get now (connection_key c) s)
      ∙ alive-get_entry now (connection_key c) x s in
    elim (Option-cases (truthy read.1)) [
      | inl none_left ↦ (
        rw (none_left, check_connection) (alive-s_rem now user x (c ∷ []) read.0 ∙ kept),
        rw (none_left, check_connection) (ap is_some (sym none_left) ∙ found_alive now c s),
      )
      | inr (t, there) ↦ (
        rw (there, check_connection) kept,
        rw (there, check_connection) (ap is_some (sym there) ∙ found_alive now c s),
      )
    ]

pub any_same :
    (f g : String → Bool) (xs : List String) → ((x : String) → f x ≡ g x) → any f xs ≡ any g xs
any_same f g [] h = refl
any_same f g (x ∷ xs) h = ground (arith, h x, any_same f g xs h)

check_connections-alive :
    (now : ℕ) (user : String) (cs : List String) (s : Store) (online : Bool)
    → (check_connections now user cs (s, online)).1 ≡ (online || any (λ c. alive now c s) cs)
unfolding check_connections
check_connections-alive now user [] s online = ground arith
check_connections-alive now user (c ∷ cs) s online =
    let one = check_connection now user (get now (connection_key c) s) c in
    let rest = check_connections-alive now user cs one.0 (one.1 || online) in
    let said = (check_connection-alive now user c c s).1 in
    let same =
      any_same (λ x. alive now x one.0) (λ x. alive now x s) cs
        (λ x. (check_connection-alive now user c x s).0) in
    rest ∙ ground (arith, said, same)

check_all-alive :
    (now : ℕ) (user : String) (r : Store × List String)
    → (check_all now user r).1 ≡ any (λ c. alive now c r.0) r.1
unfolding check_all
check_all-alive now user (s, cs) = check_connections-alive now user cs s false

pub alive-get_set :
    (now : ℕ) (key c : String) (s : Store) → alive now c (get_set now key s).0 ≡ alive now c s
unfolding get_set
alive-get_set now key c s =
    ap (λ r. alive now c r) (set_of_store (get_entry now key s)) ∙ alive-get_entry now key c s

-- A user is online just when some connection of the user's set has a key that stands.
pub is_user_online_lem :
    (now : ℕ) (user : String) (s : Store)
    → (is_user_online now user s).1
      ≡ any (λ c. alive now c s) (get_set now (user_connections_key user) s).1
unfolding is_user_online s_members
is_user_online_lem now user s =
    let found = get_set now (user_connections_key user) s in
    check_all-alive now user found
    ∙ any_same (λ c. alive now c found.0) (λ c. alive now c s) found.1
        (λ c. alive-get_set now (user_connections_key user) c s)
