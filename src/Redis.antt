-- ===== src/Redis.antt =====
-- The in-memory Redis (backend/packages/shared-redis/src/fake-redis.ts): the store, with the time of
-- a call as its argument, and the subscriptions. A listener is named by a number.
pub mod Numerals
pub mod Entries
pub mod Sets
pub mod Counter
pub mod Presence
pub mod Cache
pub mod Events
use Prim.Native.String
use mathlib.Core.List.{map}
use Prim.Native.Char.{Char, code}
use backend_sketch.Prelude.{
  ℕ, ◌+◌, ◌*◌, Bool, true, false, not, String, Option, none, some, List, [], ◌∷◌, ◌++◌, any, keep,
  length, ◌==◌, string_eq, nat_eq, if◌then◌else◌, ◌&&◌, ◌||◌, leb,
}
use backend_sketch.Prelude.JsMap.{JsMap}
use backend_sketch.Prelude.JsMap
use backend_sketch.Redis.Numerals.{show, number}

pub data Content : Type 0 where
  text : String → Content
  set : List String → Content

pub record Entry : Type 0 where
  pub value : Content
  pub expires_at : Option ℕ

abbrev pub Store : Type 0
Store = JsMap String Entry

-- `entry.expiresAt && entry.expiresAt <= Date.now()`
unfoldable pub has_expired : ℕ → Entry → Bool
has_expired now e = elim e.expires_at [ none ↦ false | some t ↦ not (t == 0) && leb t now ]

-- `getEntry`: what is there, with an expired entry deleted.
unfoldable pub get_entry : ℕ → String → Store → Store × Option Entry
unfolding has_expired
get_entry now key s = elim (JsMap.get key s) [
  | none ↦ (s, none)
  | some e ↦ if has_expired now e then (JsMap.delete key s, none) else (s, some e)
]

-- The text of what was found.
unfoldable pub text_of : Store × Option Entry → Store × Option String
text_of (s, none) = (s, none)
text_of (s, some e) = elim e.value [ text t ↦ (s, some t) | set _ ↦ (s, none) ]

-- `get`
unfoldable pub get : ℕ → String → Store → Store × Option String
unfolding get_entry text_of
get now key s = text_of (get_entry now key s)

-- The deadline of the option `EX`: none without it, or where it is 0.
unfoldable pub deadline : ℕ → Option ℕ → Option ℕ
deadline now none = none
deadline now (some seconds) = if seconds == 0 then none else some (now + seconds * 1000)

-- `set` without `NX`.
unfoldable pub put : ℕ → String → String → Option ℕ → Store → Store
unfolding deadline
put now key value ex s =
    JsMap.set key (record { value = text value; expires_at = deadline now ex }) s

-- `set`: whether it wrote.
unfoldable pub set_value :
    ℕ → String → String → (ex : Option ℕ) → (nx : Bool) → Store → Store × Bool
unfolding put get_entry
set_value now key value ex false s = (put now key value ex s, true)
set_value now key value ex true s =
    let found = get_entry now key s in
    elim found.1 [ none ↦ (put now key value ex found.0, true) | some _ ↦ (found.0, false) ]

-- The deadline that `incr` keeps.
unfoldable pub kept_deadline : Option Entry → Option ℕ
kept_deadline none = none
kept_deadline (some e) = elim e.expires_at [
  | none ↦ none
  | some t ↦ if t == 0 then none else some t
]

-- `Number(… ?? '0')`, none for `NaN`. `other` is what `Number` makes of a text that has other
-- characters than digits.
unfoldable pub current_of : (other : String → Option ℕ) → Option String → Option ℕ
unfolding number
current_of other none = some 0
current_of other (some t) = number other t

-- The count, written with the deadline that is there.
unfoldable pub write_count : String → Store × Option Entry → Option ℕ → Store × Option ℕ
unfolding kept_deadline show
write_count key (s, existing) none =
    (JsMap.set key (record { value = text "NaN"; expires_at = kept_deadline existing }) s, none)
write_count key (s, existing) (some n) = (
  JsMap.set key (record { value = text (show (n + 1)); expires_at = kept_deadline existing }) s,
  some (n + 1),
)

-- `incr`: its count, none for `NaN`.
unfoldable pub incr : (other : String → Option ℕ) → ℕ → String → Store → Store × Option ℕ
unfolding get get_entry write_count current_of
incr other now key s =
    let read = get now key s in write_count key (get_entry now key read.0) (current_of other read.1)

unfoldable pub postpone : ℕ → String → ℕ → Store × Option Entry → Store × Bool
postpone now key seconds (s, none) = (s, false)
postpone now key seconds (s, some e) =
    (JsMap.set key (record e { expires_at = some (now + seconds * 1000) }) s, true)

-- `expire`
unfoldable pub expire : ℕ → String → ℕ → Store → Store × Bool
unfolding get_entry postpone
expire now key seconds s = postpone now key seconds (get_entry now key s)

-- `del`, of the keys in turn: how many it removed.
unfoldable pub del : List String → Store → Store × ℕ
del [] s = (s, 0)
del (key ∷ keys) s =
    let rest = del keys (JsMap.delete key s) in
    elim (JsMap.get key s) [ none ↦ rest | some _ ↦ (rest.0, rest.1 + 1) ]

abbrev has : String → List String → Bool
has x = any (λ y. y == x)

-- The loop of `sAdd`.
unfoldable pub add_members : List String → List String → List String × ℕ
unfolding has
add_members [] old = (old, 0)
add_members (x ∷ xs) old =
    let rest = add_members xs (if has x old then old else old ++ x ∷ []) in
    if has x old then rest else (rest.0, rest.1 + 1)

unfoldable pub set_of : Store × Option Entry → Store × List String
set_of (s, none) = (s, [])
set_of (s, some e) = elim e.value [ text _ ↦ (s, []) | set xs ↦ (s, xs) ]

-- `getSet`
unfoldable pub get_set : ℕ → String → Store → Store × List String
unfolding get_entry set_of
get_set now key s = set_of (get_entry now key s)

unfoldable pub add_to : String → List String → Store × List String → Store × ℕ
unfolding add_members
add_to key members (s, old) =
    let added = add_members members old in
    (JsMap.set key (record { value = set added.0; expires_at = none }) s, added.1)

-- `sAdd`
unfoldable pub s_add : ℕ → String → List String → Store → Store × ℕ
unfolding get_set add_to
s_add now key members s = add_to key members (get_set now key s)

-- The loop of `sRem`.
unfoldable pub remove_members : List String → List String → List String × ℕ
unfolding has
remove_members [] old = (old, 0)
remove_members (x ∷ xs) old =
    let rest = remove_members xs (keep (λ y. not (y == x)) old) in
    if has x old then (rest.0, rest.1 + 1) else rest

-- What is left of a set, which goes when it is empty.
unfoldable pub write_left : String → Entry → List String × ℕ → Store → Store × ℕ
write_left key e ([], n) s = (JsMap.delete key s, n)
write_left key e (y ∷ ys, n) s = (JsMap.set key (record e { value = set (y ∷ ys) }) s, n)

unfoldable pub remove_from : String → List String → Store × Option Entry → Store × ℕ
unfolding remove_members write_left
remove_from key members (s, none) = (s, 0)
remove_from key members (s, some e) = elim e.value [
  | text _ ↦ (s, 0)
  | set xs ↦ write_left key e (remove_members members xs) s
]

-- `sRem`
unfoldable pub s_rem : ℕ → String → List String → Store → Store × ℕ
unfolding get_entry remove_from
s_rem now key members s = remove_from key members (get_entry now key s)

-- `sMembers`
unfoldable pub s_members : ℕ → String → Store → Store × List String
unfolding get_set
s_members now key s = get_set now key s

abbrev pub Listeners : Type 0
Listeners = JsMap String (List ℕ)

-- `matchesPattern`: a star stands for any text in which no line ends, and every other character for
-- itself.
unfoldable pub is_line_end : Char → Bool
is_line_end c = let n = code c in (n == 10) || ((n == 13) || ((n == 8232) || (n == 8233)))

-- A star, then what `rest` matches.
unfoldable pub after_star : (String → Bool) → String → Bool
unfolding is_line_end
after_star rest String.[] = rest ""
after_star rest (String.◌∷◌ c s) =
    let more = after_star rest s in rest (String.◌∷◌ c s) || (not (is_line_end c) && more)

unfoldable pub after_char : Char → (String → Bool) → String → Bool
after_char p rest String.[] = false
after_char p rest (String.◌∷◌ c s) = (code p == code c) && rest s

unfoldable pub matches_pattern : String → String → Bool
unfolding after_star after_char
matches_pattern String.[] channel = channel == ""
matches_pattern (String.◌∷◌ p pattern) channel =
    if code p == 42
    then after_star (λ s. matches_pattern pattern s) channel
    else after_char p (λ s. matches_pattern pattern s) channel

-- What a listener is called with, later.
pub record Call : Type 0 where
  pub listener : ℕ
  pub message : String
  pub channel : String

-- `publish`: the calls that it queues, whose number it answers.
unfoldable pub publish : String → String → Listeners → List Call
unfolding matches_pattern
publish channel message [] = []
publish channel message ((pattern, ls) ∷ listeners) =
    let rest = publish channel message listeners in
    if matches_pattern pattern channel
    then map (λ l. record { listener = l; message = message; channel = channel }) ls ++ rest
    else rest

-- `pSubscribe`
unfoldable pub p_subscribe : String → ℕ → Listeners → Listeners
p_subscribe pattern listener listeners =
    let ls : List ℕ = elim (JsMap.get pattern listeners) [ none ↦ [] | some ls ↦ ls ] in
    JsMap.set pattern (if any (λ l. l == listener) ls then ls else ls ++ listener ∷ []) listeners
