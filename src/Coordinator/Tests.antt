-- ===== src/Coordinator/Tests.antt =====
-- A coordinator at work, and what the properties of durable-objects.ts say of it.
use kazibee_home.Prelude.{
  ℕ, String, ◌+◌, ◌≤◌, ltb, str_eq, if◌then◌else◌, true, false, Option, none, some, List, [], ◌∷◌,
  ◌≡◌, refl, arith,
}
use kazibee_home.Prelude.Map
use kazibee_home.Json.{Json, null, num, str, obj, end, field}
use kazibee_home.Coordinator.State.{
  Coordinator, Runtime, FrameLimits, channel, viewer, ChannelAttachment, ViewerAttachment,
  InflightRoute, PendingSessionFrame, max_inflight_routes,
}
use kazibee_home.Coordinator.Handler.{text, Request, on_message}
use kazibee_home.Coordinator.Effects.{attachment_of}
use kazibee_home.Coordinator.Chunks.{total_bytes}
use kazibee_home.Coordinator.Run.{Event, message, closed, request, fresh, step, run}
use kazibee_home.Coordinator.Desk.{desk}
use kazibee_home.Coordinator.Tickets.{waiting, answers}
use kazibee_home.Coordinator.Settlement.{dispatched_exactly_once, routes_bounded}
use kazibee_home.Coordinator.Fences.{message_keeps_other_fences, viewer_message_keeps_desk}
use kazibee_home.Coordinator.Closing.{close_clears_own_presence, presence_without}
use kazibee_home.Coordinator.Budgets.{sessions_in_budget}
use kazibee_home.Coordinator.Budgets.Frames.{AllWithin}
use kazibee_home.Coordinator.Reassembly.{chunks_reassemble, feed, bytes_of}
use kazibee_home.Coordinator.Total.{IsTotal, viewer_message-IsTotal}

abbrev limits : FrameLimits
limits = record {
  offline_after_ms = 90000;
  stale_after_ms = 45000;
  result_frame_bytes = 131072;
  session_payload_bytes = 65536;
  session_pending_bytes = 1048576;
}

abbrev hello_frame : Json
hello_frame = obj (
    field "kind" (str "channel.hello")
      (field "protocolVersion" (str "1") (field "executorId" (str "exe_1") end)))

abbrev result_frame : Json
result_frame = obj (
    field "kind" (str "command.result") (
      field "protocolVersion" (str "1")
        (field "executorId" (str "exe_1") (field "operationId" (str "op_1") end))))

abbrev command : Json
command = obj (
    field "commandId" (str "cmd_1")
      (field "payload" (obj (field "operationId" (str "op_1") end)) end))

abbrev to_text : Json → String
to_text (str s) = s
to_text v = ""

abbrev to_index : Json → Option ℕ
to_index (num n) = some n
to_index (str s) = if str_eq s "7" then some 7 else none
to_index v = none

abbrev runtime : Runtime
runtime = record {
  limits = limits;
  protocol_version = "1";
  parse = λ m.
      if str_eq m "hello"
      then some hello_frame
      else if str_eq m "result"
      then some result_frame
      else none;
  stringify = λ v. "{}";
  to_text = to_text;
  to_index = to_index;
  date_parse = λ t. none;
  base36 = λ n. "a";
  encode_session_frames = λ s t. [];
  send_throws = λ ws h m. false;
  close_throws = λ ws h. false;
}

abbrev upgrade : Request
upgrade = record {
  upgrade = true;
  method = "GET";
  pathname = "/channel";
  executor_id = some "exe_1";
  device_id = some "dev_1";
  generation = some "7";
  account_ref = none;
  session_id = none;
  body = none;
  uuid12 = "u";
  uuid = "1";
  uuid' = "v";
}

abbrev dispatched : Request
dispatched = record upgrade {
  upgrade = false;
  method = "POST";
  pathname = "/dispatch";
  body = some command;
}

-- A channel opens, says hello, gets a command and answers it.
abbrev working : List Event
working =
    request 1000 upgrade
    ∷ message 1001 0 (text "hello")
    ∷ request 1002 dispatched
    ∷ message 1003 0 (text "result")
    ∷ []

abbrev old_channel : ChannelAttachment
old_channel = record {
  executor_id = "exe_1";
  device_id = "dev_1";
  credential_generation = 7;
  fence = "fence_old";
  hello_at = 1;
}

abbrev new_channel : ChannelAttachment
new_channel = record old_channel { fence = "fence_new" }

abbrev a_viewer : ViewerAttachment
a_viewer = record { executor_id = "exe_1"; account_ref = "acc"; session_id = "ses_1" }

abbrev route_of : String → ℕ → InflightRoute
route_of fence ticket = record {
  operation_id = "op_1";
  command_id = "cmd_1";
  fence = fence;
  ticket = ticket;
  accept_timer = some 6000;
  result_timer = some 60000;
  accepted = false;
}

-- An old and a new channel and a viewer are open, and each channel has a command in flight.
abbrev busy : Coordinator
busy = record {
  sockets =
      record {
        handle = 0;
        attachment = some (channel old_channel);
        answered_at = none;
        sent = [];
        closed = none;
      }
      ∷ record {
        handle = 1;
        attachment = some (channel new_channel);
        answered_at = none;
        sent = [];
        closed = none;
      }
      ∷ record {
        handle = 2;
        attachment = some (viewer a_viewer);
        answered_at = none;
        sent = [];
        closed = none;
      }
      ∷ [];
  next_handle = 3;
  presence = some (record {
    executor_id = "exe_1";
    device_id = "dev_1";
    credential_generation = 7;
    fence = "fence_new";
    last_seen_at = 2;
    executor_version = "1";
    platform = "darwin";
    capabilities = null;
    workspaces = null;
  });
  routes = ("op_1", route_of "fence_new" 1) ∷ ("op_2", route_of "fence_old" 0) ∷ [];
  route_tickets = 2;
  route_replies = [];
  session_frames = [];
  ephemeral = [];
  invoke_tickets = 0;
  invoke_replies = [];
  frame_counter = 0;
}

dispatched_exactly_once_example :
    waiting 0 (run runtime fresh working).routes
      + answers 0 (run runtime fresh working).route_replies
    ≡ (if ltb 0 (run runtime fresh working).route_tickets then 1 else 0)
dispatched_exactly_once_example = dispatched_exactly_once runtime working 0

routes_bounded_example :
    (Map.size (run runtime fresh working).routes ≤ max_inflight_routes)
    × Map.IsUnique (run runtime fresh working).routes
routes_bounded_example = routes_bounded runtime working

message_keeps_other_fences_example :
    Map.get "op_1" (step runtime busy (message 9 0 (text "result"))).routes
    ≡ some (route_of "fence_new" 1)
unfolding attachment_of Map.get
message_keeps_other_fences_example =
    message_keeps_other_fences runtime busy 9 0 (text "result") old_channel "op_1"
      (route_of "fence_new" 1) refl refl refl

viewer_message_keeps_desk_example :
    desk (step runtime busy (message 9 2 (text "hello"))) ≡ desk busy
unfolding attachment_of
viewer_message_keeps_desk_example =
    viewer_message_keeps_desk runtime busy 9 2 (text "hello") a_viewer refl

close_clears_own_presence_example :
    (step runtime busy (closed 1)).presence ≡ presence_without "fence_new" busy.presence
unfolding attachment_of
close_clears_own_presence_example = close_clears_own_presence runtime busy 1 new_channel refl

sessions_in_budget_example : AllWithin runtime (run runtime fresh working).session_frames
sessions_in_budget_example = sessions_in_budget runtime working

chunks_reassemble_example :
    (q : PendingSessionFrame) × (m' : Map.Map PendingSessionFrame) × (feed runtime "ses_1" "f_1" 2 0
        ("ab" ∷ "c" ∷ [])
        []
      ≡ some (q, m'))
    × (q.payload ≡ "ab" ∷ "c" ∷ [])
    × (q.next_index ≡ q.chunk_count)
unfolding Map.get total_bytes bytes_of
chunks_reassemble_example =
    chunks_reassemble runtime "ses_1" "f_1" "ab" ("c" ∷ []) [] refl (omega arith) (omega arith)

viewer_message-IsTotal_example : IsTotal (on_message runtime 9 2 (viewer a_viewer) "hello")
viewer_message-IsTotal_example = viewer_message-IsTotal runtime 9 2 a_viewer "hello"
