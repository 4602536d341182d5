-- ===== src/Redis/Sets.antt =====
-- The sets of the in-memory Redis: what a read finds after `sAdd` and `sRem`.
use backend_sketch.Prelude.{
  ℕ, ◌≡◌, refl, sym, ap, ◌∙◌, true, false, not, String, Option, none, some, List, [], ◌∷◌, any,
  keep, ◌==◌, string_eq, if◌then◌else◌, arith, Bool-cases, inl, inr, test_of_eq, any-append,
}
use backend_sketch.Prelude.JsMap.{JsMap, get-set, get-delete}
use backend_sketch.Prelude.JsMap
use backend_sketch.Redis.{
  Content, text, set, Entry, Store, has_expired, get_entry, get_set, set_of, s_add, add_to,
  add_members, s_rem, remove_from, remove_members, write_left,
}
use backend_sketch.Redis.Entries.{
  Live, get_entry-Live, get_entry-cases, get_entry_nothing, get-set_same, has_expired-never,
  Content-cases,
}

pub has_added :
    (c : String) (old : List String) → any (λ y. y == c) (add_members (c ∷ []) old).0 ≡ true
unfolding add_members
has_added c old = elim (Bool-cases (any (λ y. y == c) old)) [
  | inl there ↦ rw (there) there
  | inr away ↦
      rw (away) (ground (arith, any-append (λ y. y == c) old (c ∷ []), test_of_eq c c refl))
]

get_set-Live :
    (now : ℕ) (key : String) (xs : List String) (e : Entry) (s : Store)
    → Live now key e s
    → e.value ≡ set xs
    → get_set now key s ≡ (s, xs)
unfolding get_set set_of
get_set-Live now key xs e s live v =
    ap set_of (get_entry-Live now key e s live) ∙ rw (v, set_of) refl

pub after_s_add :
    (now : ℕ) (key : String) (ms : List String) (s : Store)
    → (s_add now key ms s).0
      ≡ JsMap.set key
          (record { value = set (add_members ms (get_set now key s).1).0; expires_at = none })
          (get_set now key s).0
unfolding s_add add_to
after_s_add now key ms s = refl

pub get_set-s_add :
    (now later : ℕ) (key : String) (ms : List String) (s : Store)
    → (get_set later key (s_add now key ms s).0).1 ≡ (add_members ms (get_set now key s).1).0
get_set-s_add now later key ms s =
    let xs = (add_members ms (get_set now key s).1).0 in
    let e : Entry = record { value = set xs; expires_at = none } in
    ap (λ r. (get_set later key r).1) (after_s_add now key ms s)
    ∙ ap (λ r. r.1)
        (get_set-Live later key xs e (JsMap.set key e (get_set now key s).0)
          (get-set_same key e (get_set now key s).0, has_expired-never later e refl) refl)

left_of :
    (c : String) (xs : List String) → (remove_members (c ∷ []) xs).0 ≡ keep (λ y. not (y == c)) xs
unfolding remove_members
left_of c xs = elim (Bool-cases (any (λ y. y == c) xs)) [
  | inl there ↦ rw (there, remove_members) refl
  | inr away ↦ rw (away, remove_members) refl
]

get_set-nothing :
    (now : ℕ) (key : String) (s : Store) → JsMap.get key s ≡ none → (get_set now key s).1 ≡ []
unfolding get_set set_of
get_set-nothing now key s h = ap (λ r. (set_of r).1) (get_entry_nothing now key s h)

get_set-write_left :
    (now : ℕ) (key : String) (e : Entry) (r : List String × ℕ) (s : Store)
    → has_expired now e ≡ false
    → (get_set now key (write_left key e r s).0).1 ≡ r.0
unfolding write_left has_expired
get_set-write_left now key e ([], n) s live =
    get_set-nothing now key (JsMap.delete key s)
      (ground (arith, get-delete key key s, test_of_eq key key refl))
get_set-write_left now key e (y ∷ ys, n) s live =
    let e' : Entry = record e { value = set (y ∷ ys) } in
    ap (λ r. r.1)
      (get_set-Live now key (y ∷ ys) e' (JsMap.set key e' s) (get-set_same key e' s, live) refl)

set_of-none : (s : Store) → (set_of (s, none)).1 ≡ []
unfolding set_of
set_of-none s = refl

remove_from-set :
    (key : String) (ms xs : List String) (e : Entry) (s : Store)
    → e.value ≡ set xs
    → remove_from key ms (s, some e) ≡ write_left key e (remove_members ms xs) s
unfolding remove_from
remove_from-set key ms xs e s v = rw (v, remove_from) refl

remove_from-text :
    (key t : String) (ms : List String) (e : Entry) (s : Store)
    → e.value ≡ text t
    → remove_from key ms (s, some e) ≡ (s, 0)
unfolding remove_from
remove_from-text key t ms e s v = rw (v, remove_from) refl

-- The set that a read finds, of what the entries say.
members_found :
    (now : ℕ) (key : String) (s : Store) (r : Store × Option Entry) (xs : List String)
    → get_entry now key s ≡ r
    → (set_of r).1 ≡ xs
    → (get_set now key s).1 ≡ xs
unfolding get_set
members_found now key s r xs h g = ap (λ x. (set_of x).1) h ∙ g

set_of-value :
    (s : Store) (e : Entry) (v : Content)
    → e.value ≡ v
    → (set_of (s, some e)).1 ≡ (elim v [ text _ ↦ [] | set xs ↦ xs ])
unfolding set_of
set_of-value s e (text t) h = rw (h, set_of) refl
set_of-value s e (set xs) h = rw (h, set_of) refl

pub get_set-s_rem :
    (now : ℕ) (key c : String) (s : Store)
    → (get_set now key (s_rem now key (c ∷ []) s).0).1
      ≡ keep (λ y. not (y == c)) (get_set now key s).1
unfolding s_rem
get_set-s_rem now key c s =
    let f = λ (r : Store × Option Entry). (get_set now key (remove_from key (c ∷ []) r).0).1 in
    let g = λ (x : Store × ℕ). (get_set now key x.0).1 in
    let k = λ (xs : List String). keep (λ y. not (y == c)) xs in
    elim (get_entry-cases now key s) [
      | inl (a, r) ↦
          ap f r
          ∙ (get_set-nothing now key s a
              ∙ sym (ap k (members_found now key s (s, none) [] r (set_of-none s))))
      | inr (e, a, inl (dead, r)) ↦
          let d = JsMap.delete key s in
          ap f r
          ∙ (get_set-nothing now key d
                (ground (arith, get-delete key key s, test_of_eq key key refl))
              ∙ sym (ap k (members_found now key s (d, none) [] r (set_of-none d))))
      | inr (e, a, inr (live, r)) ↦ elim (Content-cases e.value) [
        | inl (t, v) ↦
            let now_found =
              members_found now key s (s, some e) [] r (set_of-value s e (text t) v) in
            ap f r
            ∙ (ap g (remove_from-text key t (c ∷ []) e s v) ∙ (now_found ∙ sym (ap k now_found)))
        | inr (xs, v) ↦
            ap f r
            ∙ (ap g (remove_from-set key (c ∷ []) xs e s v)
                ∙ (get_set-write_left now key e (remove_members (c ∷ []) xs) s live
                    ∙ (left_of c xs
                        ∙ sym (
                            ap k (
                              members_found now key s (s, some e) xs r
                                (set_of-value s e (set xs) v))))))
      ]
    ]

-- The set that a read finds in an entry.
unfoldable pub seen : ℕ → Option Entry → List String
seen now none = []
seen now (some e) = if has_expired now e then [] else elim e.value [ text _ ↦ [] | set xs ↦ xs ]

pub get_set_sees :
    (now : ℕ) (key : String) (s : Store) → (get_set now key s).1 ≡ seen now (JsMap.get key s)
unfolding seen
get_set_sees now key s = elim (get_entry-cases now key s) [
  | inl (a, r) ↦ members_found now key s (s, none) [] r (set_of-none s) ∙ rw (a, seen) refl
  | inr (e, a, inl (dead, r)) ↦
      members_found now key s (JsMap.delete key s, none) [] r (set_of-none (JsMap.delete key s))
      ∙ rw (a, seen) (rw dead refl)
  | inr (e, a, inr (live, r)) ↦ elim (Content-cases e.value) [
    | inl (t, v) ↦
        members_found now key s (s, some e) [] r (set_of-value s e (text t) v)
        ∙ rw (a, seen) (rw (live, v) refl)
    | inr (xs, v) ↦
        members_found now key s (s, some e) xs r (set_of-value s e (set xs) v)
        ∙ rw (a, seen) (rw (live, v) refl)
  ]
]
