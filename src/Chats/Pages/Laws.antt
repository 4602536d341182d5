-- ===== src/Chats/Pages/Laws.antt =====
-- What a page of messages holds.
use mathlib.Core.List.{map}
use backend_sketch.Prelude.{
  ℕ, ◌≡◌, ◌≢◌, ◌≤◌, sym, subst, true, String, Option, none, some, List, [], ◌∷◌, All, All_imp,
  All-map, AllPairs, length, arith, Bool-cases, Option-cases, inl, inr, ◌==◌, string_eq, ◌<◌, zero,
  suc, find, eq_of_test, ◌+◌, ◌⊎◌, keep, ltb,
}
use backend_sketch.Prelude.Append.{length-take_le}
use backend_sketch.Prelude.Sort.{
  sort_desc, Descends, sort_desc-All, sort_desc-Descends, sort_desc-AllPairs, take-All,
  take-AllPairs,
}
use backend_sketch.Prelude.Result.{ok, ok_inj}
use backend_sketch.Api.{MessageDto}
use backend_sketch.Db.{Db, Message, MessageWrite, is_member}
use backend_sketch.Chats.Pages.Whole.{fits, fits_write, Complete, page-Complete}
use backend_sketch.Chats.Pages.{
  PageInput, page_size, cursor_of, is_before, find_messages, find_pending_message_writes,
  find_cursor, add_messages, add_pending, page, get_messages, sent_at,
}
use backend_sketch.Chats.Pages.Merged.{
  Fits, Good, add_messages-Good, add_pending-Good, values-apart, find_messages-All,
  find_pending-All, merged-owned,
}

-- A page of `size` messages of a room.
pub record IsPage (room : String) (before : Option ℕ) (size : ℕ) (ms : List MessageDto)
    : Type 0 where
  pub short : length ms ≤ size
  pub newest_first : AllPairs (Descends sent_at) ms
  pub apart : AllPairs (λ x y. ◌≢◌ x.id y.id) ms
  pub fitting : All (λ x. (x.chat_id ≡ room) × (is_before before x.created_at ≡ true)) ms

page-IsPage :
    (room : String) (before : Option ℕ) (size : ℕ) (db : Db)
    → IsPage room before size (page room before size db)
unfolding page Good
page-IsPage room before size db =
    let ms = find_messages room before size db.messages in
    let ws = find_pending_message_writes room before size db.writes in
    let merged = add_pending ws (add_messages ms []) in
    let good : Good room before merged =
      add_pending-Good room before ws (add_messages ms [])
        (find_pending-All room before size db.writes)
        (add_messages-Good room before ms [] (find_messages-All room before size db.messages)
          (tt, tt)) in
    let values = map (λ e. e.1) merged in
    record {
      short = length-take_le size (sort_desc sent_at values);
      newest_first =
          take-AllPairs (Descends sent_at) size (sort_desc sent_at values)
            (sort_desc-Descends sent_at values);
      apart = take-AllPairs _ size (sort_desc sent_at values) (
          sort_desc-AllPairs sent_at (λ x y. ◌≢◌ x.id y.id) values (λ a b n e. n (sym e))
            (values-apart merged good.0
              (All_imp {P = Fits room before} {Q = λ e. e.0 ≡ e.1.id} merged (λ e f. f.0) good.1)));
      fitting = take-All _ size (sort_desc sent_at values) (
          sort_desc-All sent_at _ values (
            All-map (λ e. e.1) (λ x. (x.chat_id ≡ room) × (is_before before x.created_at ≡ true))
              merged
              (All_imp {P = Fits room before}
                {Q = λ e. (e.1.chat_id ≡ room) × (is_before before e.1.created_at ≡ true)} merged
                (λ e f. (f.1, f.2)) good.1)));
    }

-- How many messages a caller gets who asks for a number of them: without a number, or for zero,
-- fifty.
abbrev pub Within : Option ℕ → ℕ → Type 0
Within none k = k ≤ 50
Within (some zero) k = k ≤ 50
Within (some (suc n)) k = (k ≤ suc n) × (k ≤ 100)

-- Every message of the list was sent before the time.
abbrev pub Older : ℕ → List MessageDto → Type 0
Older t = All (λ x. x.created_at < t)

-- What a `before` id asks of a list: nothing without an id, or when no row has the id; else that
-- its messages are older than the message of the id, or than the write of it when there is no such
-- message.
pub data Precedes (db : Db) (ms : List MessageDto) : Option String → Type 0 where
  no_cursor : Precedes db ms none
  empty_cursor : Precedes db ms (some "")
  message_cursor :
      (id : String) (m : Message)
      → find (λ x. x.id == id) db.messages ≡ some m
      → Older m.created_at ms
      → Precedes db ms (some id)
  write_cursor :
      (id : String) (w : MessageWrite)
      → find (λ x. x.id == id) db.messages ≡ none
      → find (λ x. x.id == id) db.writes ≡ some w
      → Older w.accepted_at ms
      → Precedes db ms (some id)
  unknown_cursor :
      (id : String)
      → find (λ x. x.id == id) db.messages ≡ none
      → find (λ x. x.id == id) db.writes ≡ none
      → Precedes db ms (some id)

page_size-Within : (limit : Option ℕ) (k : ℕ) → k ≤ page_size limit → Within limit k
unfolding page_size native.Mathlib.Decide.ℕ_discrete
page_size-Within none k h = h
page_size-Within (some zero) k h = h
page_size-Within (some (suc n)) k h = (ground arith, ground arith)

fitting-Older :
    (room : String) (t : ℕ) (ms : List MessageDto)
    → All (λ x. (x.chat_id ≡ room) × (is_before (some t) x.created_at ≡ true)) ms
    → Older t ms
unfolding is_before
fitting-Older room t [] h = tt
fitting-Older room t (x ∷ ms) h = (ground (arith, h.0.1), fitting-Older room t ms h.1)

cursor-Precedes :
    (room : String) (before : Option String) (db : Db) (ms : List MessageDto)
    → All (λ x. (x.chat_id ≡ room) × (is_before (cursor_of before db) x.created_at ≡ true)) ms
    → Precedes db ms before
unfolding cursor_of find_cursor
cursor-Precedes room none db ms h = no_cursor
cursor-Precedes room (some id) db ms h = elim (Bool-cases (id == "")) [
  | inl e ↦ subst (λ i. Precedes db ms (some i)) (sym (eq_of_test id "" e)) empty_cursor
  | inr named ↦ elim (Option-cases (find (λ x. x.id == id) db.messages)) [
    | inr (m, found) ↦
        message_cursor id m found
          (fitting-Older room m.created_at ms (rw (named, found, cursor_of, find_cursor) at h))
    | inl missing ↦ elim (Option-cases (find (λ x. x.id == id) db.writes)) [
      | inr (w, found) ↦ write_cursor id w missing found (
          fitting-Older room w.accepted_at ms
            (rw (named, missing, found, cursor_of, find_cursor) at h))
      | inl nothing ↦ unknown_cursor id missing nothing
    ]
  ]
]

-- A list holds every message and waiting write of the chat before the cursor, or there are more of
-- them than `size`.
abbrev pub Whole : String → Option ℕ → ℕ → Db → List MessageDto → Type 0
Whole room before size db ms =
    (size
      < length (keep (fits room before) db.messages)
        + length (keep (fits_write room before) db.writes))
    ⊎ Complete room before db ms

page-Whole :
    (room : String) (before : Option ℕ) (size : ℕ) (db : Db)
    → Whole room before size db (page room before size db)
page-Whole room before size db =
    let n =
      length (keep (fits room before) db.messages)
      + length (keep (fits_write room before) db.writes) in
    elim (Bool-cases (ltb size n)) [
      | inl many ↦ inl (ground (arith, many))
      | inr few ↦ inr (
          page-Complete room before size db (ground (arith, few))
            (merged-owned room before size db))
    ]

-- Only a member of a chat reads its messages, and what it reads is a page: of this chat, newest
-- first and each once; older than the message or write that the `before` id names; no more messages
-- than asked for and than a hundred, or than fifty where no number or zero is asked for; and all that
-- there are, with the writes that wait, where these are no more than the size of the page.
pub get_messages-IsPage :
    (input : PageInput) (db : Db) (ms : List MessageDto)
    → get_messages input db ≡ ok ms
    → (is_member input.user_id input.chat_id db.members ≡ true)
      × IsPage input.chat_id (cursor_of input.before_message_id db) (page_size input.limit) ms
      × Within input.limit (length ms)
      × Precedes db ms input.before_message_id
      × Whole input.chat_id (cursor_of input.before_message_id db) (page_size input.limit) db ms
unfolding get_messages
get_messages-IsPage input db ms h =
    elim (Bool-cases (is_member input.user_id input.chat_id db.members)) [
      | inr stranger ↦ absurd (cc (rw (stranger, get_messages) at h))
      | inl member ↦
          let e = ok_inj (rw (member, get_messages) at h) in
          let before = cursor_of input.before_message_id db in
          let size = page_size input.limit in
          let is_page =
            subst (IsPage input.chat_id before size) e (page-IsPage input.chat_id before size db) in
          (
            member,
            is_page,
            page_size-Within input.limit (length ms) is_page.short,
            cursor-Precedes input.chat_id input.before_message_id db ms is_page.fitting,
            subst (λ xs. Whole input.chat_id before size db xs) e
                (page-Whole input.chat_id before size db),
          )
    ]
