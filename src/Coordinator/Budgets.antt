-- ===== src/Coordinator/Budgets.antt =====
-- The budgets of incomplete frames, over the handler and whole runs of it.
pub mod Frames
use kazibee_home.Prelude.{
  ℕ, String, Bool-cases, str_eq, ◌==◌, Option, none, some, List, [], ◌∷◌, arith, get_or, inl, inr,
}
use kazibee_home.Prelude.Map
use kazibee_home.Prelude.Map.{Map}
use kazibee_home.Json.{Json}
use kazibee_home.Coordinator.State.{
  Coordinator, Socket, Attachment, channel, viewer, ChannelAttachment, ViewerAttachment, Message,
  Runtime, Response, EphemeralInvoke, PendingSessionFrame,
}
use kazibee_home.Coordinator.Effects.{send, close, accept_socket, modify}
use kazibee_home.Coordinator.Keeps.{
  Keeps, keep_rules, keep_modify, keep_send, keep_close, keep_accept, keep_if, keep_seq, keep_found,
  keep_done,
}
use kazibee_home.Coordinator.Chunks.{Chunk, add_chunk, close_frame, total_bytes}
use kazibee_home.Coordinator.Reassembly.{IsWithin, add_chunk-IsWithin, delete-IsWithin}
use kazibee_home.Coordinator.Session.{
  send_session_close, send_session_frame, send_to_viewer, settle_invoke, fail_session_budget,
  on_viewer_message, forget_session, complete_invoke, finish_frame, reassemble, on_chunk,
  on_session_frame, close_viewer, on_session_close, close_all_viewers, reject_ephemeral_offline,
}
use kazibee_home.Coordinator.Invoke.{session_invoke_read, register_invoke, session_invoke_timeout}
use kazibee_home.Coordinator.Channel.{
  replace_socket, accept_channel, accept_viewer, on_hello, on_event,
}
use kazibee_home.Coordinator.Routes.{
  lose_routes, register_route, route_command, dispatch, on_accepted, on_result, expire_route,
  accept_timeout, result_timeout,
}
use kazibee_home.Coordinator.Handler.{
  Inbound, text, binary, Request, violation, on_frame, check_frame, on_channel_message, on_message,
  web_socket_message, clear_presence, on_close, web_socket_close, fetch,
}
use kazibee_home.Coordinator.Run.{
  Event, message, closed, request, accept_timer, result_timer, invoke_timer, ponged, dropped, fresh,
  step, run,
}
use kazibee_home.Coordinator.Budgets.Frames.{
  AllWithin, InBudget, sent, shut, accepted, dropped_frames, closed_session, framed, viewed,
  frame_received, close_received, viewer_closed, rejected, all_closed, timed_out, invoked,
}

module _ (rt : Runtime) where
  ruleset basics = (dropped_frames, keep_rules, sent, shut, accepted)

  replaced : (w : Socket) → Keeps (InBudget rt) (replace_socket rt w)
  unfolding replace_socket
  replaced w = search (basics, viewer_closed) depth 14

  channel_accepted :
      (u : String) (e d g : Option String) → Keeps (InBudget rt) (accept_channel rt u e d g)
  unfolding accept_channel
  channel_accepted u e d g = search (basics, replaced, rejected) depth 14

  viewer_accepted :
      (t : ℕ) (u : String) (e a i : Option String)
      → Keeps (InBudget rt) (accept_viewer rt t u e a i)
  unfolding accept_viewer
  viewer_accepted t u e a i = search (basics) depth 14

  greeted : (t h : ℕ) (a : ChannelAttachment) (f : Json) → Keeps (InBudget rt) (on_hello rt t h a f)
  unfolding on_hello
  greeted t h a f = search (basics) depth 14

  evented : (t : ℕ) (a : ChannelAttachment) (f : Json) → Keeps (InBudget rt) (on_event rt t a f)
  unfolding on_event
  evented t a f = search (basics) depth 14

  violated :
      (h : ℕ) (c m : String) (n : ℕ) (r : String) → Keeps (InBudget rt) (violation rt h c m n r)
  unfolding violation
  violated h c m n r = search (basics) depth 14

  cleared : (f : String) → Keeps (InBudget rt) (clear_presence rt f)
  unfolding clear_presence
  cleared f = search (basics, all_closed, rejected) depth 14

  lost : (f : String) → Keeps (InBudget rt) (lose_routes f)
  unfolding lose_routes
  lost f = search (basics) depth 14

  result_received : (a : ChannelAttachment) (f : Json) → Keeps (InBudget rt) (on_result rt a f)
  unfolding on_result
  result_received a f = search (basics) depth 14

  accepted_received : (a : ChannelAttachment) (f : Json) → Keeps (InBudget rt) (on_accepted rt a f)
  unfolding on_accepted
  accepted_received a f = search (basics) depth 14

  expired : (k : String) (t : ℕ) (x : Response) → Keeps (InBudget rt) (expire_route k t x)
  unfolding expire_route
  expired k t x = search (basics) depth 14

  route_registered :
      (t h : ℕ) (k f : String) (c : Json) → Keeps (InBudget rt) (register_route rt t h k f c)
  unfolding register_route
  route_registered t h k f c = search (basics) depth 14

  routed : (t h : ℕ) (f : String) (c : Json) → Keeps (InBudget rt) (route_command rt t h f c)
  unfolding route_command
  routed t h f c = search (basics, route_registered) depth 14

  dispatched : (t : ℕ) (body : Option Json) → Keeps (InBudget rt) (dispatch rt t body)
  unfolding dispatch
  dispatched t body = search (basics, routed) depth 14

  frame_handled :
      (t h : ℕ) (a : ChannelAttachment) (f : Json) → Keeps (InBudget rt) (on_frame rt t h a f)
  unfolding on_frame
  frame_handled t h a f =
      search
        (
          basics,
          greeted,
          evented,
          frame_received rt,
          close_received rt,
          result_received,
          accepted_received,
        )
        depth 14

  channel_message :
      (t h : ℕ) (a : ChannelAttachment) (m : String)
      → Keeps (InBudget rt) (on_channel_message rt t h a m)
  unfolding on_channel_message check_frame
  channel_message t h a m = search (basics, frame_handled, violated) depth 14

  message_handled :
      (t h : ℕ) (a : Attachment) (m : String) → Keeps (InBudget rt) (on_message rt t h a m)
  unfolding on_message
  message_handled t h (viewer a) m = search (basics, viewed) depth 12
  message_handled t h (channel a) m = channel_message t h a m

  socket_message : (t h : ℕ) (m : Inbound) → Keeps (InBudget rt) (web_socket_message rt t h m)
  unfolding web_socket_message
  socket_message t h binary = keep_done
  socket_message t h (text m) = search (basics, message_handled) depth 12

  close_handled : (a : Attachment) → Keeps (InBudget rt) (on_close rt a)
  unfolding on_close
  close_handled (viewer a) = search (basics, closed_session) depth 12
  close_handled (channel a) = search (basics, cleared, lost) depth 12

  socket_close : (h : ℕ) → Keeps (InBudget rt) (web_socket_close rt h)
  unfolding web_socket_close
  socket_close h = search (basics, close_handled) depth 14

  fetched : (t : ℕ) (q : Request) → Keeps (InBudget rt) (fetch rt t q)
  unfolding fetch
  fetched t q = search (basics, dispatched, viewer_accepted, channel_accepted, invoked) depth 14

  step-InBudget : (s : Coordinator) (e : Event) → InBudget rt s → InBudget rt (step rt s e)
  unfolding step accept_timeout result_timeout
  step-InBudget s (message now h m) p = (socket_message now h m).run s p
  step-InBudget s (closed h) p = (socket_close h).run s p
  step-InBudget s (request now q) p = (fetched now q).run s p
  step-InBudget s (accept_timer k t) p = (expired k t _).run s p
  step-InBudget s (result_timer k t) p = (expired k t _).run s p
  step-InBudget s (invoke_timer k i) p = (timed_out rt k i).run s p
  step-InBudget s (ponged h t) p = p
  step-InBudget s (dropped h) p = p

  run-InBudget : (s : Coordinator) (es : List Event) → InBudget rt s → InBudget rt (run rt s es)
  unfolding run
  run-InBudget s [] p = p
  run-InBudget s (e ∷ es) p = run-InBudget (step rt s e) es (step-InBudget s e p)

-- Whatever happens to a coordinator, each session holds at most 64 incomplete frames; the texts of
-- their chunks come to no more bytes than the limit of the protocol; and each frame counts the bytes
-- of its own texts.
pub sessions_in_budget :
    (rt : Runtime) (es : List Event) → AllWithin rt (run rt fresh es).session_frames
unfolding fresh
sessions_in_budget rt es = run-InBudget rt fresh es tt
