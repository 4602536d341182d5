-- ===== src/Chats/Pages/Whole.antt =====
-- That a page leaves nothing out for which it has room.
use mathlib.Core.List.{map}
use backend_sketch.Prelude.{
  ℕ, zero, suc, ◌+◌, ◌≤◌, ◌≡◌, refl, subst, ap, ◌∙◌, Bool, true, false, String, Option, some, List,
  [], ◌∷◌, All, All_imp, any, keep, take, length, arith, Bool-cases, Option-cases, inl, inr, ◌⊎◌,
  ◌==◌, string_eq, ◌&&◌, ◌||◌, test_of_eq, eq_of_test,
}
use backend_sketch.Prelude.Sort.{insert_desc, sort_desc, any-sort_desc}
use backend_sketch.Prelude.JsMap.{JsMap}
use backend_sketch.Prelude.JsMap
use backend_sketch.Api.{MessageDto, to_message_dto}
use backend_sketch.Db.{Db, Message, MessageWrite}
use backend_sketch.MessageWrites.Dead.{is_pending}
use backend_sketch.Chats.Pages.{
  pending_dto, is_before, find_messages, find_pending_message_writes, add_messages, add_pending,
  page, created_at, accepted_at, sent_at,
}

take_whole {ℓ} : {A : Type ℓ} (n : ℕ) (xs : List A) → length xs ≤ n → take n xs ≡ xs
take_whole zero [] h = refl
take_whole zero (x ∷ xs) h = absurd (omega arith)
take_whole (suc n) [] h = refl
take_whole (suc n) (x ∷ xs) h = ap (λ ys. x ∷ ys) (take_whole n xs (omega arith))

module _ {ℓ} {A : Type ℓ} where
  length-insert_desc :
      (key : A → ℕ) (x : A) (ys : List A) → length (insert_desc key x ys) ≡ suc (length ys)
  unfolding insert_desc
  length-insert_desc key x [] = refl
  length-insert_desc key x (y ∷ ys) = ground (arith, length-insert_desc key x ys)

  length-sort_desc : (key : A → ℕ) (xs : List A) → length (sort_desc key xs) ≡ length xs
  unfolding sort_desc
  length-sort_desc key [] = refl
  length-sort_desc key (x ∷ xs) =
      length-insert_desc key x (sort_desc key xs) ∙ ap suc (length-sort_desc key xs)

  -- Every element of the test is found in a list by its name.
  abbrev Named : (A → String) → (A → Bool) → List A → List A → Type 0
  Named name p ks = All (λ x. (p x ≡ false) ⊎ (any (λ y. name y == name x) ks ≡ true))

  Named-keep : (name : A → String) (p : A → Bool) (xs : List A) → Named name p (keep p xs) xs
  Named-keep name p [] = tt
  Named-keep name p (x ∷ xs) = elim (Bool-cases (p x)) [
    | inl kept ↦
        let e : x ∷ keep p xs ≡ keep p (x ∷ xs) = rw kept refl in
        subst (λ ks. Named name p ks (x ∷ xs)) e
          (
            inr (ground (arith, test_of_eq (name x) (name x) refl)),
            All_imp xs (λ y h. elim h [ inl n ↦ inl n | inr t ↦ inr (ground (arith, t)) ])
                (Named-keep name p xs),
          )
    | inr other ↦
        let e : keep p xs ≡ keep p (x ∷ xs) = rw other refl in
        subst (λ ks. Named name p ks (x ∷ xs)) e (inl other, Named-keep name p xs)
  ]

has_key : String → JsMap String MessageDto → Bool
has_key id = any (λ e. e.0 == id)

has_key-set :
    (id k : String) (v : MessageDto) (m : JsMap String MessageDto)
    → has_key id (JsMap.set k v m) ≡ (k == id || has_key id m)
unfolding has_key JsMap.set
has_key-set id k v [] = refl
has_key-set id k v ((j, w) ∷ m) = elim (Bool-cases (j == k)) [
  | inl same ↦
      let e = eq_of_test j k same in
      rw (same, JsMap.set)
        (subst (λ i. (j == id || has_key id m) ≡ (i == id || (j == id || has_key id m))) e
          (ground arith))
  | inr other ↦ rw (other, JsMap.set) (ground (arith, has_key-set id k v m))
]

length-set_le :
    (k : String) (v : MessageDto) (m : JsMap String MessageDto)
    → length (JsMap.set k v m) ≤ suc (length m)
unfolding JsMap.set
length-set_le k v [] = omega arith
length-set_le k v ((j, w) ∷ m) = ground (arith, length-set_le k v m)

has_key-get :
    (k : String) (v : MessageDto) (m : JsMap String MessageDto)
    → JsMap.get k m ≡ some v
    → has_key k m ≡ true
unfolding has_key JsMap.get
has_key-get k v [] h = absurd (cc h)
has_key-get k v ((j, w) ∷ m) h = elim (Bool-cases (j == k)) [
  | inl same ↦ ground (arith, same)
  | inr other ↦ ground (arith, has_key-get k v m (rw (other, JsMap.get) at h))
]

module _ (id : String) where
  has_key-add_messages :
      (xs : List Message) (m : JsMap String MessageDto)
      → has_key id (add_messages xs m) ≡ (any (λ x. x.id == id) xs || has_key id m)
  unfolding add_messages
  has_key-add_messages [] m = refl
  has_key-add_messages (x ∷ xs) m =
      has_key-add_messages xs (JsMap.set x.id (to_message_dto x) m)
      ∙ rw (has_key-set id x.id (to_message_dto x) m) (ground arith)

  has_key-add_pending :
      (ws : List MessageWrite) (m : JsMap String MessageDto)
      → has_key id (add_pending ws m) ≡ (any (λ w. w.id == id) ws || has_key id m)
  unfolding add_pending
  has_key-add_pending [] m = refl
  has_key-add_pending (w ∷ ws) m = elim (Option-cases (JsMap.get w.id m)) [
    | inl new ↦
        rw (new, add_pending)
          (has_key-add_pending ws (JsMap.set w.id (pending_dto w) m)
            ∙ rw (has_key-set id w.id (pending_dto w) m) (ground arith))
    | inr (v, there) ↦
        rw (there, add_pending)
          (has_key-add_pending ws m ∙ elim (Bool-cases (w.id == id)) [
            | inr other ↦ rw other refl
            | inl same ↦
                let h =
                  subst (λ k. has_key k m ≡ true) (eq_of_test w.id id same)
                    (has_key-get w.id v m there) in
                ground (arith, h, same)
          ])
  ]

length-add_messages_le :
    (xs : List Message) (m : JsMap String MessageDto)
    → length (add_messages xs m) ≤ length xs + length m
unfolding add_messages
length-add_messages_le [] m = omega arith
length-add_messages_le (x ∷ xs) m = omega (
  arith,
  length-add_messages_le xs (JsMap.set x.id (to_message_dto x) m),
  length-set_le x.id (to_message_dto x) m,
)

length-add_pending_le :
    (ws : List MessageWrite) (m : JsMap String MessageDto)
    → length (add_pending ws m) ≤ length ws + length m
unfolding add_pending
length-add_pending_le [] m = omega arith
length-add_pending_le (w ∷ ws) m = elim (Option-cases (JsMap.get w.id m)) [
  | inl new ↦
      rw (new, add_pending)
        (omega (
          arith,
          length-add_pending_le ws (JsMap.set w.id (pending_dto w) m),
          length-set_le w.id (pending_dto w) m,
        ))
  | inr (v, there) ↦ rw (there, add_pending) (omega (arith, length-add_pending_le ws m))
]

values_have :
    (id : String) (m : JsMap String MessageDto)
    → All (λ e. e.0 ≡ e.1.id) m
    → any (λ x. x.id == id) (map (λ e. e.1) m) ≡ has_key id m
unfolding has_key
values_have id [] h = refl
values_have id ((k, v) ∷ m) h =
    subst (λ j. (j == id || any (λ x. x.id == id) (map (λ e. e.1) m)) ≡ (k == id || has_key id m))
      h.0 (rw (values_have id m h.1) refl)

length-values : (m : JsMap String MessageDto) → length (map (λ e. e.1) m) ≡ length m
length-values [] = refl
length-values (e ∷ m) = ap suc (length-values m)

module _ (room : String) (before : Option ℕ) where
  -- The messages and the waiting writes of the chat before the cursor.
  abbrev pub fits : Message → Bool
  fits m = (m.room_id == room) && is_before before m.created_at

  abbrev pub fits_write : MessageWrite → Bool
  fits_write w = (w.room_id == room) && (is_pending w.status && is_before before w.accepted_at)

  -- Each of them is in the list.
  abbrev pub Complete : Db → List MessageDto → Type 0
  Complete db ms =
      All (λ m. (fits m ≡ false) ⊎ (any (λ x. x.id == m.id) ms ≡ true)) db.messages
      × All (λ w. (fits_write w ≡ false) ⊎ (any (λ x. x.id == w.id) ms ≡ true)) db.writes

  module _ (size : ℕ) (db : Db)
      (few : length (keep fits db.messages) + length (keep fits_write db.writes) ≤ size) where
    found_messages :
        find_messages room before size db.messages ≡ sort_desc created_at (keep fits db.messages)
    unfolding find_messages
    found_messages =
        take_whole size (sort_desc created_at (keep fits db.messages))
          (omega (arith, few, length-sort_desc created_at (keep fits db.messages)))

    found_writes :
        find_pending_message_writes room before size db.writes
        ≡ sort_desc accepted_at (keep fits_write db.writes)
    unfolding find_pending_message_writes
    found_writes =
        take_whole size (sort_desc accepted_at (keep fits_write db.writes))
          (omega (arith, few, length-sort_desc accepted_at (keep fits_write db.writes)))

    merged : JsMap String MessageDto
    merged =
        add_pending (sort_desc accepted_at (keep fits_write db.writes))
          (add_messages (sort_desc created_at (keep fits db.messages)) [])

    length-merged_le : length merged ≤ size
    unfolding merged
    length-merged_le = omega (
      arith,
      few,
      length-sort_desc created_at (keep fits db.messages),
      length-sort_desc accepted_at (keep fits_write db.writes),
      length-add_pending_le (sort_desc accepted_at (keep fits_write db.writes))
          (add_messages (sort_desc created_at (keep fits db.messages)) []),
      length-add_messages_le (sort_desc created_at (keep fits db.messages)) [],
    )

    page_whole : page room before size db ≡ sort_desc sent_at (map (λ e. e.1) merged)
    unfolding page merged
    page_whole =
        rw (page, found_messages, found_writes)
          (take_whole size (sort_desc sent_at (map (λ e. e.1) merged)) (
            omega (
              arith,
              length-merged_le,
              length-values merged,
              length-sort_desc sent_at (map (λ e. e.1) merged),
            )))

    page_has :
        (id : String)
        → All (λ e. e.0 ≡ e.1.id) merged
        → any (λ x. x.id == id) (page room before size db) ≡ (
            any (λ w. w.id == id) (keep fits_write db.writes)
            || (any (λ m. m.id == id) (keep fits db.messages) || false))
    unfolding merged has_key
    page_has id own =
        ap (any (λ x. x.id == id)) page_whole
        ∙ any-sort_desc sent_at (λ x. x.id == id) (map (λ e. e.1) merged)
        ∙ values_have id merged own
        ∙ has_key-add_pending id (sort_desc accepted_at (keep fits_write db.writes))
            (add_messages (sort_desc created_at (keep fits db.messages)) [])
        ∙ rw
            (
              has_key-add_messages id (sort_desc created_at (keep fits db.messages)) [],
              any-sort_desc accepted_at (λ w. w.id == id) (keep fits_write db.writes),
              any-sort_desc created_at (λ m. m.id == id) (keep fits db.messages),
            )
            refl

    pub page-Complete :
        All
          (λ e. e.0 ≡ e.1.id)
          (add_pending
            (find_pending_message_writes room before size db.writes)
            (add_messages (find_messages room before size db.messages) []))
        → Complete db (page room before size db)
    unfolding merged
    page-Complete h =
        let own : All (λ e. e.0 ≡ e.1.id) merged = rw (found_messages, found_writes) at h in
        (
          All_imp db.messages
              (λ m k. elim k [ inl n ↦ inl n | inr y ↦ inr (ground (arith, y, page_has m.id own)) ])
              (Named-keep (λ m. m.id) fits db.messages),
          All_imp db.writes
              (λ w k. elim k [ inl n ↦ inl n | inr y ↦ inr (ground (arith, y, page_has w.id own)) ])
              (Named-keep (λ w. w.id) fits_write db.writes),
        )
