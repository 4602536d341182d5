-- ===== src/Tests/Sockets.antt =====
-- The theorems on the sockets of the realtime service at concrete inputs.
use mathlib.Core.List.{map}
use native.Mathlib.Decide.{ℕ_discrete}
use backend_sketch.Prelude.{
  ℕ, false, Option, true, String, none, some, List, [], ◌∷◌, ◌++◌, ◌≡◌, ◌≢◌, ◌↔◌, refl, All,
  AllPairs, nat_eq, keep, ◌&&◌, inl, inr,
}
use backend_sketch.Prelude.JsMap
use backend_sketch.Prelude.Result.{Result, ok}
use backend_sketch.Api.{text}
use backend_sketch.Nats.{MessageWriteCommand}
use backend_sketch.RateLimit.{RateLimitOptions, RateLimitResult}
use backend_sketch.RoomEvents.{RoomEvent}
use backend_sketch.Realtime.{
  ClientState, PresenceStore, empty_store, sockets_of, add_client, remove_client,
  add_socket_to_room, has_open_socket_for_user,
}
use backend_sketch.Realtime.Frames.{Field, RawFrame, Wire, WsServerFrame, msg}
use backend_sketch.Realtime.Fanout.{broadcast_room_event_to_local_clients, recipients_of}
use backend_sketch.Realtime.Fanout.Laws.{
  frames, concerns, ready, broadcast_room_event-frames, Other, recipients_of_others,
}
use backend_sketch.Realtime.Server.{Service, RealtimeCounters}
use backend_sketch.Realtime.Server.Answers.{handle_send_answers, Says, FrameAnswer}
use backend_sketch.Realtime.Sockets.{holds}
use backend_sketch.Realtime.Registry.{
  Step, connects, joins, leaves, Reached, start, next, Indexed, Reached-Indexed,
}
use backend_sketch.Accounts.Auth.{JwtPayload}
use backend_sketch.Realtime.Turns.{Moment, Event, accepts, receives, resumes, closes, Server}
use backend_sketch.Realtime.Turns.Served.{AllNew, turns, turns-Indexed}
use backend_sketch.Realtime.Online.{Open, has_open_socket_lem, late_join_stays}

-- A new connection of Alice, and of Bob.
abbrev alice_state : ClientState
alice_state = record { ws = 1; user_id = "alice"; room_ids = []; connection_id = "c1" }

abbrev bob_state : ClientState
bob_state = record { ws = 2; user_id = "bob"; room_ids = "lobby" ∷ []; connection_id = "c2" }

abbrev alone : PresenceStore
alone = add_client alice_state empty_store

abbrev joined : PresenceStore
joined = (add_socket_to_room alice_state "lobby" alone).0

abbrev both : PresenceStore
both = (add_socket_to_room bob_state "lobby" (add_client bob_state joined)).0

abbrev open_wire : Wire
open_wire = record { is_open = λ ws. true; buffered_amount = λ ws. 0; send_buffer_limit = 10 }

abbrev hello : RoomEvent
hello = record {
  room_id = "lobby";
  message = record {
    id = "m1";
    chat_id = "lobby";
    sender_id = "alice";
    type = text;
    body = "hello";
    created_at = 5;
    delivery_status = none;
  };
  origin_connection_id = some "c1";
}

broadcast_room_event-frames_example :
    frames (broadcast_room_event_to_local_clients open_wire both (some hello))
    ≡ map
        (λ ws. (ws, msg hello.message))
        (keep
          (λ ws. concerns both hello ws && ready open_wire ws)
          (sockets_of "lobby" both.room_sockets))
broadcast_room_event-frames_example = broadcast_room_event-frames open_wire both hello

recipients_of_others_example :
    AllPairs ◌≢◌ (recipients_of both "alice" ("lobby" ∷ "lobby" ∷ []) [])
    × All (Other both "alice") (recipients_of both "alice" ("lobby" ∷ "lobby" ∷ []) [])
recipients_of_others_example = recipients_of_others both "alice" ("lobby" ∷ "lobby" ∷ []) [] tt tt

alone-Step : Step empty_store alone
unfolding JsMap.get sockets_of
alone-Step = connects alice_state empty_store refl refl (λ room. refl)

joined-Step : Step alone joined
unfolding add_client JsMap.get JsMap.set ℕ_discrete
joined-Step = joins alice_state "lobby" alone (inl refl)

joined-Reached : Reached joined
joined-Reached = next alone joined (next empty_store alone start alone-Step) joined-Step

-- Alice goes, and a send of hers that was waiting joins another room.
abbrev gone : PresenceStore
gone = (remove_client 1 joined).0

abbrev late : PresenceStore
late = (add_socket_to_room alice_state "hall" gone).0

late-Step : Step gone late
unfolding remove_client add_client add_socket_to_room JsMap.get JsMap.set JsMap.delete ℕ_discrete
late-Step = joins alice_state "hall" gone (inr refl)

late-Reached : Reached late
late-Reached = next gone late (next joined gone joined-Reached (leaves 1 joined)) late-Step

Reached-Indexed_example : Indexed late
Reached-Indexed_example = Reached-Indexed late late-Reached

has_open_socket_lem_example :
    (has_open_socket_for_user (λ ws. true) "alice" joined ≡ true) ↔ Open (λ ws. true) "alice" joined
has_open_socket_lem_example = has_open_socket_lem (λ ws. true) "alice" joined joined-Reached

late_join_stays_example :
    let q = (add_socket_to_room alice_state "lobby" (remove_client 1 alone).0).0 in
    (JsMap.get 1 q.client_states ≡ none)
    × (holds 1 (sockets_of "lobby" q.room_sockets) ≡ true)
    × ((remove_client 1 q).0 ≡ q)
late_join_stays_example = late_join_stays alice_state "lobby" alone

abbrev zero_counters : RealtimeCounters
zero_counters = record {
  ws_connected = 1;
  send_frame_received = 0;
  send_rate_limited = 0;
  typing_rate_limited = 0;
  nats_publish_started = 0;
  nats_publish_succeeded = 0;
  nats_publish_failed = 0;
  nats_publish_skipped = 0;
  ack_sent = 0;
}

-- A service whose limiter lets all pass and whose buffer is the list of what it took.
abbrev service : Service (Unit {0}) (List MessageWriteCommand)
service = record { store = joined; limiter = tt; buffer = ([], zero_counters); out = [] }

abbrev let_all : String → RateLimitOptions → Unit {0} → Unit {0} × RateLimitResult
let_all key o s = (tt, record { allowed = true; count = 1 })

abbrev take_all :
    MessageWriteCommand
    → List MessageWriteCommand
    → List MessageWriteCommand × Result String (Unit {0})
take_all c cs = (cs ++ c ∷ [], ok tt)

abbrev send_frame : RawFrame
send_frame = record {
  type = Field.text "send";
  request_id = Field.text "r1";
  chat_id = Field.text "lobby";
  body = Field.text "hello";
  is_typing = Field.other;
}

handle_send_answers_example :
    (said : WsServerFrame) × Says open_wire [] let_all 10 10
      (λ s. s)
      take_all
      20
      bob_state
      send_frame
      service
      said
    × FrameAnswer open_wire [] let_all 10 10 (λ s. s) take_all 20 bob_state send_frame service said
handle_send_answers_example =
    handle_send_answers open_wire [] let_all 10 10 (λ s. s) take_all 20 bob_state send_frame service

abbrev verify_all : String → Option JwtPayload
verify_all token = some (record { user_id = token; username = token })

abbrev idle : Service (Unit {0}) (List MessageWriteCommand)
idle = record { store = empty_store; limiter = tt; buffer = ([], zero_counters); out = [] }

abbrev idle_server : Server (Unit {0}) (List MessageWriteCommand)
idle_server = record { service = idle; ended = []; tasks = [] }

-- Carol is in the lobby.
abbrev moment : ℕ → Moment
moment now = record {
  wire = open_wire;
  members = record { user_id = "carol"; room_id = "lobby" } ∷ [];
  now = now;
}

-- Carol connects, sends to the lobby, and goes while the membership is looked up.
abbrev carol_turns : List (Moment × Event)
carol_turns =
    (moment 20, accepts 3 (some "carol") "c3")
    ∷ (moment 21, receives 3 (some send_frame))
    ∷ (moment 22, resumes 0)
    ∷ (moment 23, closes 3)
    ∷ (moment 24, resumes 0)
    ∷ []

carol_new : AllNew let_all 10 10 (λ s. s) take_all verify_all false carol_turns idle_server
unfolding AllNew JsMap.get sockets_of
carol_new = ((refl, λ room. refl), (tt, (tt, (tt, (tt, tt)))))

turns-Indexed_example :
    Indexed
      (turns let_all 10 10 (λ s. s) take_all verify_all false carol_turns idle_server).service.store
turns-Indexed_example =
    turns-Indexed let_all 10 10 (λ s. s) take_all verify_all false carol_turns idle_server refl refl
      carol_new
