-- ===== src/Redis/Presence/Laws.antt =====
-- Registering a connection and taking it away, as others then see the user.
use Prim.Native.String
use Prim.Native.String.append
use Prim.Native.Char.{Char}
use native.Mathlib.Decide.{ℕ_discrete}
use backend_sketch.Prelude.{
  ℕ, ◌+◌, ◌<◌, ◌≡◌, refl, sym, ap, ◌∙◌, subst, Bool, true, false, not, String, none, some, List, [],
  ◌∷◌, any, keep, ◌==◌, string_eq, ◌&&◌, arith, Bool-cases, Option-cases, inl, inr, eq_of_test,
  test_turned, test_of_eq, nat_eq,
}
use backend_sketch.Prelude.JsMap.{JsMap, get-set, get-delete}
use backend_sketch.Prelude.JsMap
use backend_sketch.Redis.{
  text, set, Entry, Store, get_entry, get_set, put, deadline, del, s_add, add_members, s_rem,
}
use backend_sketch.Redis.Sets.{
  has_added, after_s_add, get_set-s_add, get_set-s_rem, seen, get_set_sees,
}
use backend_sketch.Redis.Entries.{
  set_of_store, get_entry-other, get-set_same, get-set_other, has_expired-later,
}
use backend_sketch.Redis.Presence.{
  presence_ttl_seconds, connection_key, user_connections_key, is_user_online, register_presence,
  unregister_presence,
}
use backend_sketch.Redis.Presence.Alive.{
  live_text, alive, alive_same, any_same, alive-s_rem, is_user_online_lem, keys_apart,
}

alive-s_add :
    (now later : ℕ) (user c : String) (ms : List String) (s : Store)
    → alive later c (get_set now (user_connections_key user) s).0 ≡ alive later c s
    → alive later c (s_add now (user_connections_key user) ms s).0 ≡ alive later c s
alive-s_add now later user c ms s kept =
    let key = user_connections_key user in
    let old = get_set now key s in
    let e : Entry = record { value = set (add_members ms old.1).0; expires_at = none } in
    ap (λ r. alive later c r) (after_s_add now key ms s)
    ∙ (alive_same later c old.0 (JsMap.set key e old.0)
          (get-set_other key (connection_key c) e old.0 (keys_apart user c))
        ∙ kept)

deadline_of_ttl : (now : ℕ) → deadline now (some presence_ttl_seconds) ≡ some (now + 30000)
unfolding deadline ℕ_discrete
deadline_of_ttl now = refl

alive-put :
    (now later : ℕ) (user c : String) (s : Store)
    → (user == "") ≡ false
    → later < now + 30000
    → alive later c (put now (connection_key c) user (some presence_ttl_seconds) s) ≡ true
unfolding put alive live_text
alive-put now later user c s named soon =
    let e : Entry = record {
      value = text user;
      expires_at = deadline now (some presence_ttl_seconds);
    } in
    rw
      (
        get-set_same (connection_key c) e s,
        has_expired-later later (now + 30000) e (deadline_of_ttl now) soon,
        named,
        alive,
      )
      refl

get-get_set :
    (now : ℕ) (user c : String) (s : Store)
    → JsMap.get (connection_key c) (get_set now (user_connections_key user) s).0
      ≡ JsMap.get (connection_key c) s
unfolding get_set
get-get_set now user c s =
    ap (λ r. JsMap.get (connection_key c) r)
      (set_of_store (get_entry now (user_connections_key user) s))
    ∙ get_entry-other now (user_connections_key user) (connection_key c) s (keys_apart user c)

any_one :
    (f : String → Bool) (c : String) (xs : List String)
    → any (λ y. y == c) xs ≡ true
    → f c ≡ true
    → any f xs ≡ true
any_one f c [] h g = absurd (cc h)
any_one f c (x ∷ xs) h g = elim (Bool-cases (x == c)) [
  | inl same ↦
      let e = eq_of_test x c same in
      let t : f x ≡ true = subst (λ y. f y ≡ true) (sym e) g in ground (arith, t)
  | inr apart ↦ let t = any_one f c xs (ground (arith, h, apart)) g in ground (arith, t)
]

-- A user with a name who registered a connection is online as long as 30 seconds are not over.
pub register_presence-online :
    (now later : ℕ) (user c : String) (s : Store)
    → (user == "") ≡ false
    → later < now + 30000
    → (is_user_online later user (register_presence now user c s).0).1 ≡ true
unfolding register_presence
register_presence-online now later user c s named soon =
    let was = (is_user_online now user s).0 in
    let s' = put now (connection_key c) user (some presence_ttl_seconds) was in
    let s'' = (s_add now (user_connections_key user) (c ∷ []) s').0 in
    let standing : alive later c s'' ≡ true =
      alive-s_add now later user c (c ∷ []) s' (
        alive_same later c s' (get_set now (user_connections_key user) s').0
          (get-get_set now user c s'))
      ∙ alive-put now later user c was named soon in
    let member : any (λ y. y == c) (get_set later (user_connections_key user) s'').1 ≡ true =
      ap (λ xs. any (λ y. y == c) xs)
        (get_set-s_add now later (user_connections_key user) (c ∷ []) s')
      ∙ has_added c (get_set now (user_connections_key user) s').1 in
    is_user_online_lem later user s''
    ∙ any_one (λ d. alive later d s'') c (get_set later (user_connections_key user) s'').1 member
        standing

cons_cancel : (c : Char) (a b : String) → String.◌∷◌ c a ≡ String.◌∷◌ c b → a ≡ b
cons_cancel c a b h = cc

append_cancel : (p a b : String) → String.◌++◌ p a ≡ String.◌++◌ p b → a ≡ b
append_cancel String.[] a b h = sym (append.nil a) ∙ (h ∙ append.nil b)
append_cancel (String.◌∷◌ c p) a b h = append_cancel p a b (
    cons_cancel c (String.◌++◌ p a) (String.◌++◌ p b)
      (sym (append.cons c p a) ∙ (h ∙ append.cons c p b)))

connection_key_apart :
    (c d : String) → (d == c) ≡ false → (connection_key c == connection_key d) ≡ false
unfolding connection_key
connection_key_apart c d apart = elim (Bool-cases (connection_key c == connection_key d)) [
  | inr away ↦ away
  | inl same ↦
      let e =
        append_cancel "presence:conn:" c d
          (eq_of_test (connection_key c) (connection_key d) same) in
      absurd (let t = test_of_eq d c (sym e) in cc)
]

deleted : (key : String) (s : Store) → (del (key ∷ []) s).0 ≡ JsMap.delete key s
unfolding del
deleted key s = elim (Option-cases (JsMap.get key s)) [
  | inl a ↦ rw (a, del) refl
  | inr (e, a) ↦ rw (a, del) refl
]

alive-delete :
    (now : ℕ) (c d : String) (s : Store)
    → (not (d == c) && alive now d (JsMap.delete (connection_key c) s))
      ≡ (not (d == c) && alive now d s)
alive-delete now c d s = elim (Bool-cases (d == c)) [
  | inl same ↦ rw same refl
  | inr apart ↦
      let k = connection_key_apart c d apart in
      let g : JsMap.get (connection_key d) (JsMap.delete (connection_key c) s)
          ≡ JsMap.get (connection_key d) s =
        ground (arith, get-delete (connection_key c) (connection_key d) s, k) in
      rw (apart) (alive_same now d s (JsMap.delete (connection_key c) s) g)
]

any-keep : (f p : String → Bool) (xs : List String) → any f (keep p xs) ≡ any (λ x. p x && f x) xs
any-keep f p [] = refl
any-keep f p (x ∷ xs) = ground (arith, any-keep f p xs)

-- The set of the user is as it was after another key went.
set-delete :
    (now : ℕ) (user c : String) (s : Store)
    → (get_set now (user_connections_key user) (JsMap.delete (connection_key c) s)).1
      ≡ (get_set now (user_connections_key user) s).1
set-delete now user c s =
    let key = user_connections_key user in
    let d = JsMap.delete (connection_key c) s in
    let apart = test_turned key (connection_key c) (keys_apart user c) in
    let same : JsMap.get key d ≡ JsMap.get key s =
      ground (arith, get-delete (connection_key c) key s, apart) in
    get_set_sees now key d ∙ (ap (λ x. seen now x) same ∙ sym (get_set_sees now key s))

-- To take a connection away answers that the user went just when no other connection in the user's set
-- has a key that stands.
pub unregister_presence_lem :
    (now : ℕ) (user c : String) (s : Store)
    → (unregister_presence now user c s).1
      ≡ not (any (λ d. not (d == c) && alive now d s) (get_set now (user_connections_key user) s).1)
unfolding unregister_presence
unregister_presence_lem now user c s =
    let key = user_connections_key user in
    let s' = (del (connection_key c ∷ []) s).0 in
    let d = JsMap.delete (connection_key c) s in
    let left = (s_rem now key (c ∷ []) s').0 in
    let f = λ (x : String). alive now x left in
    let g = λ (x : String). alive now x s' in
    let members = (get_set now key s').1 in
    ap not (
      is_user_online_lem now user left
      ∙ (ap (λ xs. any f xs) (get_set-s_rem now key c s')
          ∙ (any_same f g (keep (λ y. not (y == c)) members)
                (λ x. alive-s_rem now user x (c ∷ []) s')
              ∙ (any-keep g (λ y. not (y == c)) members
                  ∙ (ap (λ st. any (λ x. not (x == c) && alive now x st) (get_set now key st).1)
                        (deleted (connection_key c) s)
                      ∙ (any_same (λ x. not (x == c) && alive now x d)
                            (λ x. not (x == c) && alive now x s) (get_set now key d).1
                            (λ x. alive-delete now c x s)
                          ∙ ap (λ xs. any (λ x. not (x == c) && alive now x s) xs)
                              (set-delete now user c s)))))))
