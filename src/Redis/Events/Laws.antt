-- ===== src/Redis/Events/Laws.antt =====
-- An event that is published for a room reaches a subscriber of all rooms as it was.
use Prim.Native.String
use Prim.Native.String.append
use Prim.Native.Char.{code}
use native.Mathlib.Decide.{ℕ_discrete}
use mathlib.Core.List.{map}
use backend_sketch.Prelude.{
  ℕ, ◌≡◌, refl, sym, ◌∙◌, subst, Bool, true, false, not, String, Option, none, some, List, [], ◌∷◌,
  ◌++◌, any, ◌==◌, string_eq, nat_eq, if◌then◌else◌, ◌&&◌, ◌||◌, arith, Bool-cases, inl, inr,
  eq_of_test, test_of_eq, str_discrete, All, All_imp, All-append, any-append, some_inj,
}
use backend_sketch.Prelude.JsMap.{JsMap, get-set}
use backend_sketch.Prelude.JsMap
use backend_sketch.Api.{MessageDto}
use backend_sketch.RoomEvents.{RoomEvent, room_event_channel}
use backend_sketch.Realtime.Frames.{text}
use backend_sketch.Redis.{
  is_line_end, after_star, after_char, matches_pattern, Call, Listeners, publish, p_subscribe,
}
use backend_sketch.Redis.Events.{
  room_event_pattern, RawRoomEvent, room_event, publish_room_message, is_text, parse_room_event,
}

-- No line ends in the text, as in every identifier.
unfoldable pub one_line : String → Bool
unfolding is_line_end
one_line String.[] = true
one_line (String.◌∷◌ c s) = not (is_line_end c) && one_line s

unfoldable starless : String → Bool
starless String.[] = true
starless (String.◌∷◌ c s) = not (code c == 42) && starless s

matches_after :
    (p pattern s : String)
    → starless p ≡ true
    → matches_pattern (String.◌++◌ p pattern) (String.◌++◌ p s) ≡ matches_pattern pattern s
unfolding matches_pattern after_char starless
matches_after String.[] pattern s h = rw (append.nil pattern, append.nil s) refl
matches_after (String.◌∷◌ c p) pattern s h =
    let plain : (code c == 42) ≡ false = ground (arith, h) in
    let same = test_of_eq (code c) (code c) refl in
    rw (append.cons c p pattern, append.cons c p s, plain, same, matches_pattern)
      (matches_after p pattern s (ground (arith, h)))

star_now : (rest : String → Bool) (s : String) → rest s ≡ true → after_star rest s ≡ true
unfolding after_star
star_now rest String.[] g = g
star_now rest (String.◌∷◌ c s) g = ground (arith, g)

star_over :
    (rest : String → Bool) (x s : String)
    → one_line x ≡ true
    → rest s ≡ true
    → after_star rest (String.◌++◌ x s) ≡ true
unfolding after_star one_line
star_over rest String.[] s h g = rw (append.nil s) (star_now rest s g)
star_over rest (String.◌∷◌ c x) s h g =
    rw (append.cons c x s, after_star) (ground (arith, h, star_over rest x s))

ends_itself : matches_pattern ":events" ":events" ≡ true
unfolding matches_pattern after_char ℕ_discrete str_discrete
ends_itself = refl

pattern_star :
    (s : String) → matches_pattern "*:events" s ≡ after_star (λ t. matches_pattern ":events" t) s
unfolding matches_pattern ℕ_discrete
pattern_star s = refl

room_starless : starless "room:" ≡ true
unfolding starless ℕ_discrete
room_starless = refl

room_event_matches :
    (room : String)
    → one_line room ≡ true
    → matches_pattern room_event_pattern (room_event_channel room) ≡ true
unfolding room_event_channel
room_event_matches room h =
    matches_after "room:" "*:events" (String.◌++◌ room ":events") room_starless
    ∙ (pattern_star (String.◌++◌ room ":events")
        ∙ star_over (λ t. matches_pattern ":events" t) room ":events" h ends_itself)

-- The fields of an event as JSON.
abbrev pub raw_of : RoomEvent → RawRoomEvent
raw_of e = record {
  type = text "message.created";
  room_id = text e.room_id;
  message = some e.message;
  origin_connection_id = e.origin_connection_id;
}

parse_room_event-raw :
    (parse : String → Option RawRoomEvent) (raw : String) (e : RoomEvent)
    → parse raw ≡ some (raw_of e)
    → parse_room_event parse raw ≡ some e
unfolding parse_room_event is_text str_discrete
parse_room_event-raw parse raw e h = rw (h, parse_room_event) refl

calls_say :
    (channel message : String) (ls : List ℕ)
    → All
        (λ (c : Call). c.message ≡ message)
        (map (λ l. record { listener = l; message = message; channel = channel }) ls)
calls_say channel message [] = tt
calls_say channel message (l ∷ ls) = (refl, calls_say channel message ls)

publish_says :
    (channel message : String) (listeners : Listeners)
    → All (λ (c : Call). c.message ≡ message) (publish channel message listeners)
unfolding publish
publish_says channel message [] = tt
publish_says channel message ((pattern, ls) ∷ listeners) =
    elim (Bool-cases (matches_pattern pattern channel)) [
      | inl fits ↦
          rw (fits, publish)
            (All-append (λ (c : Call). c.message ≡ message) _ _ (calls_say channel message ls)
              (publish_says channel message listeners))
      | inr off ↦ rw (off, publish) (publish_says channel message listeners)
    ]

-- The listener is called.
abbrev pub calls : ℕ → List Call → Bool
calls l = any (λ (c : Call). c.listener == l)

calls_have :
    (channel message : String) (l : ℕ) (ls : List ℕ)
    → calls l (map (λ x. record { listener = x; message = message; channel = channel }) ls)
      ≡ any (λ x. x == l) ls
calls_have channel message l [] = refl
calls_have channel message l (x ∷ ls) = ground (arith, calls_have channel message l ls)

calls_after : (l : ℕ) (xs ys : List Call) → calls l (xs ++ ys) ≡ (calls l xs || calls l ys)
calls_after l [] ys = refl
calls_after l (x ∷ xs) ys = ground (arith, calls_after l xs ys)

publish_calls :
    (channel message pattern : String) (l : ℕ) (ls : List ℕ) (listeners : Listeners)
    → JsMap.get pattern listeners ≡ some ls
    → any (λ x. x == l) ls ≡ true
    → matches_pattern pattern channel ≡ true
    → calls l (publish channel message listeners) ≡ true
unfolding publish JsMap.get
publish_calls channel message pattern l ls [] h m fits = absurd (cc h)
publish_calls channel message pattern l ls ((p, xs) ∷ listeners) h m fits =
    let rest = publish channel message listeners in
    let here : List Call =
      map (λ x. record { listener = x; message = message; channel = channel }) xs in
    elim (Bool-cases (p == pattern)) [
      | inl same ↦
          let fits_here : matches_pattern p channel ≡ true =
            subst (λ t. matches_pattern t channel ≡ true) (sym (eq_of_test p pattern same)) fits in
          let e : xs ≡ ls = some_inj (rw (same, JsMap.get) at h) in
          let m' : any (λ x. x == l) xs ≡ true =
            subst (λ t. any (λ x. x == l) t ≡ true) (sym e) m in
          rw (fits_here, publish)
            (ground (arith, calls_after l here rest, calls_have channel message l xs, m'))
      | inr apart ↦
          let later =
            publish_calls channel message pattern l ls listeners (rw (apart, JsMap.get) at h) m
              fits in
          elim (Bool-cases (matches_pattern p channel)) [
            | inl also ↦ rw (also, publish) (ground (arith, calls_after l here rest, later))
            | inr off ↦ rw (off, publish) later
          ]
    ]

added :
    (l : ℕ) (ls : List ℕ)
    → any (λ x. x == l) (if any (λ x. x == l) ls then ls else ls ++ l ∷ []) ≡ true
added l ls = elim (Bool-cases (any (λ x. x == l) ls)) [
  | inl there ↦ rw there there
  | inr away ↦ rw away (ground (arith, any-append (λ x. x == l) ls (l ∷ []), test_of_eq l l refl))
]

subscribed :
    (pattern : String) (l : ℕ) (listeners : Listeners)
    → (ls : List ℕ) × (JsMap.get pattern (p_subscribe pattern l listeners) ≡ some ls)
      × (any (λ x. x == l) ls ≡ true)
unfolding p_subscribe
subscribed pattern l listeners =
    let old : List ℕ = elim (JsMap.get pattern listeners) [ none ↦ [] | some ls ↦ ls ] in
    let new = if any (λ x. x == l) old then old else old ++ l ∷ [] in
    (
      new,
      ground (arith, get-set pattern pattern new listeners, test_of_eq pattern pattern refl),
      added l old,
    )

-- A message that is published, with a text that parses to its event and a chat whose name is one line,
-- reaches who subscribed to all rooms, and every call that is made parses to the event of the message.
pub publish_room_message_reaches :
    (write : RoomEvent → String) (parse : String → Option RawRoomEvent) (message : MessageDto)
    (origin : Option String) (l : ℕ) (listeners : Listeners)
    → parse (write (room_event message origin)) ≡ some (raw_of (room_event message origin))
    → one_line message.chat_id ≡ true
    → (calls l
          (publish_room_message write message origin (p_subscribe room_event_pattern l listeners))
        ≡ true)
      × All
          (λ (c : Call). parse_room_event parse c.message ≡ some (room_event message origin))
          (publish_room_message write message origin (p_subscribe room_event_pattern l listeners))
unfolding publish_room_message
publish_room_message_reaches write parse message origin l listeners json flat =
    let e = room_event message origin in
    let channel = room_event_channel message.chat_id in
    let subs = p_subscribe room_event_pattern l listeners in
    let s = subscribed room_event_pattern l listeners in
    (
      publish_calls channel (write e) room_event_pattern l s.0 subs s.1 s.2
          (room_event_matches message.chat_id flat),
      All_imp {P = λ (c : Call). c.message ≡ write e}
          {Q = λ (c : Call). parse_room_event parse c.message ≡ some e}
          (publish channel (write e) subs)
          (λ c h.
            subst (λ t. parse_room_event parse t ≡ some e) (sym h)
              (parse_room_event-raw parse (write e) e json))
          (publish_says channel (write e) subs),
    )
