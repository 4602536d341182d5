-- ===== src/Tests/Chats.antt =====
-- The theorems on the chats of a user and their pages at concrete inputs.
use backend_sketch.Prelude.{
  ℕ, true, String, none, some, List, [], ◌∷◌, ◌≡◌, refl, All, AllPairs, str_discrete, length,
}
use backend_sketch.Prelude.Sort.{Descends}
use backend_sketch.Api.{MessageDto}
use backend_sketch.Db.{is_member, Db, Message}
use backend_sketch.Chats.Pages.{PageInput, cursor_of, page_size, page, get_messages}
use backend_sketch.Chats.Pages.Laws.{IsPage, Within, Precedes, Whole, get_messages-IsPage}
use backend_sketch.Chats.Listing.{list_chats, chat_time}
use backend_sketch.Chats.Listing.Laws.{IsCurrent, list_chats-IsCurrent}
use backend_sketch.Tests.Data.{one_room}

-- The lobby with two messages.
abbrev message_of : String → ℕ → Message
message_of id at = record {
  id = id;
  content = "hello";
  created_at = at;
  request_id = none;
  room_sequence = at;
  sender_id = "alice";
  room_id = "lobby";
}

abbrev two_messages : Db
two_messages = record one_room { messages = message_of "m1" 1 ∷ message_of "m2" 2 ∷ [] }

-- Alice's page of the lobby before its second message, of at most three.
abbrev first_page : PageInput
first_page = record {
  user_id = "alice";
  chat_id = "lobby";
  before_message_id = some "m2";
  limit = some 3;
}

abbrev found_page : List MessageDto
found_page = page "lobby" (cursor_of (some "m2") two_messages) (page_size (some 3)) two_messages

get_messages-IsPage_example :
    (is_member "alice" "lobby" two_messages.members ≡ true)
    × IsPage "lobby" (cursor_of (some "m2") two_messages) (page_size (some 3)) found_page
    × Within (some 3) (length found_page)
    × Precedes two_messages found_page (some "m2")
    × Whole "lobby"
        (cursor_of (some "m2") two_messages)
        (page_size (some 3))
        two_messages
        found_page
unfolding get_messages is_member str_discrete
get_messages-IsPage_example = get_messages-IsPage first_page two_messages found_page refl

list_chats-IsCurrent_example :
    All (IsCurrent "alice" two_messages) (list_chats "alice" two_messages)
    × AllPairs (Descends chat_time) (list_chats "alice" two_messages)
list_chats-IsCurrent_example = list_chats-IsCurrent "alice" two_messages
