-- ===== src/Redis/Entries.antt =====
-- What `get_entry` finds after the calls that write.
use backend_sketch.Prelude.{
  List, ℕ, ◌≡◌, ◌<◌, refl, true, false, String, Option, none, some, ◌==◌, nat_eq, string_eq, arith,
  Bool-cases, Option-cases, inl, inr, ◌⊎◌, test_of_eq,
}
use backend_sketch.Prelude.JsMap.{JsMap, get-set, get-delete}
use backend_sketch.Prelude.JsMap
use backend_sketch.Redis.{Content, text, set, text_of, set_of, Entry, Store, has_expired, get_entry}

-- The entry is there at the time.
abbrev pub Live : ℕ → String → Entry → Store → Type 0
Live now key e s = (JsMap.get key s ≡ some e) × (has_expired now e ≡ false)

pub get_entry-Live :
    (now : ℕ) (key : String) (e : Entry) (s : Store)
    → Live now key e s
    → get_entry now key s ≡ (s, some e)
unfolding get_entry
get_entry-Live now key e s (found, live) = rw (found, live, get_entry) refl

pub get-set_same :
    (key : String) (e : Entry) (s : Store) → JsMap.get key (JsMap.set key e s) ≡ some e
get-set_same key e s = ground (arith, get-set key key e s, test_of_eq key key refl)

pub get-set_other :
    (key j : String) (e : Entry) (s : Store)
    → (key == j) ≡ false
    → JsMap.get j (JsMap.set key e s) ≡ JsMap.get j s
get-set_other key j e s apart = ground (arith, get-set key j e s, apart)

-- A deadline to come.
pub has_expired-later :
    (now d : ℕ) (e : Entry) → e.expires_at ≡ some d → now < d → has_expired now e ≡ false
unfolding has_expired
has_expired-later now d e h later = rw (h, has_expired) (ground arith)

pub has_expired-never : (now : ℕ) (e : Entry) → e.expires_at ≡ none → has_expired now e ≡ false
unfolding has_expired
has_expired-never now e h = rw (h, has_expired) refl

-- A read of one key leaves the others.
pub get_entry-other :
    (now : ℕ) (key j : String) (s : Store)
    → (key == j) ≡ false
    → JsMap.get j (get_entry now key s).0 ≡ JsMap.get j s
unfolding get_entry
get_entry-other now key j s apart = elim (Option-cases (JsMap.get key s)) [
  | inl a ↦ rw (a, get_entry) refl
  | inr (e, a) ↦ elim (Bool-cases (has_expired now e)) [
    | inl dead ↦ rw (a, dead, get_entry) (ground (arith, get-delete key j s, apart))
    | inr live ↦ rw (a, live, get_entry) refl
  ]
]

pub get_entry_nothing :
    (now : ℕ) (key : String) (s : Store) → JsMap.get key s ≡ none → get_entry now key s ≡ (s, none)
unfolding get_entry
get_entry_nothing now key s h = rw (h, get_entry) refl

-- A key without a live entry is not in the store after the read.
pub get_entry_absent :
    (now : ℕ) (key : String) (s : Store)
    → (get_entry now key s).1 ≡ none
    → (s' : Store) × (get_entry now key s ≡ (s', none)) × (JsMap.get key s' ≡ none)
unfolding get_entry
get_entry_absent now key s h = elim (Option-cases (JsMap.get key s)) [
  | inl a ↦ (s, rw (a, get_entry) refl, a)
  | inr (e, a) ↦ elim (Bool-cases (has_expired now e)) [
    | inl dead ↦ (
      JsMap.delete key s,
      rw (a, dead, get_entry) refl,
      ground (arith, get-delete key key s, test_of_eq key key refl),
    )
    | inr live ↦ absurd (cc (rw (a, live, get_entry) at h))
  ]
]

-- The three outcomes of a read.
pub get_entry-cases :
    (now : ℕ) (key : String) (s : Store)
    → ((JsMap.get key s ≡ none) × (get_entry now key s ≡ (s, none)))
      ⊎ ((e : Entry) × (JsMap.get key s ≡ some e)
          × (((has_expired now e ≡ true) × (get_entry now key s ≡ (JsMap.delete key s, none)))
              ⊎ ((has_expired now e ≡ false) × (get_entry now key s ≡ (s, some e)))))
unfolding get_entry
get_entry-cases now key s = elim (Option-cases (JsMap.get key s)) [
  | inl a ↦ inl (a, rw (a, get_entry) refl)
  | inr (e, a) ↦ elim (Bool-cases (has_expired now e)) [
    | inl dead ↦ inr (e, a, inl (dead, rw (a, dead, get_entry) refl))
    | inr live ↦ inr (e, a, inr (live, rw (a, live, get_entry) refl))
  ]
]

pub Content-cases :
    (v : Content) → ((t : String) × (v ≡ text t)) ⊎ ((xs : List String) × (v ≡ set xs))
Content-cases (text t) = inl (t, refl)
Content-cases (set xs) = inr (xs, refl)

pub set_of_store : (r : Store × Option Entry) → (set_of r).0 ≡ r.0
unfolding set_of
set_of_store (s, none) = refl
set_of_store (s, some e) = elim (Content-cases e.value) [
  | inl (t, v) ↦ rw (v, set_of) refl
  | inr (xs, v) ↦ rw (v, set_of) refl
]

pub text_of_store : (r : Store × Option Entry) → (text_of r).0 ≡ r.0
unfolding text_of
text_of_store (s, none) = refl
text_of_store (s, some e) = elim (Content-cases e.value) [
  | inl (t, v) ↦ rw (v, text_of) refl
  | inr (xs, v) ↦ rw (v, text_of) refl
]
