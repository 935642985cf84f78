-- ===== src/Coordinator/Desk.antt =====
-- The routes and their answers (the desk) are touched by the commands alone: sessions, viewers,
-- hellos, events and upgrades leave them as they are.
use kazibee_home.Prelude.{ℕ, String, Option, none, some, List}
use kazibee_home.Prelude.Map.{Map}
use kazibee_home.Json.{Json}
use kazibee_home.Coordinator.State.{
  Coordinator, Socket, Attachment, channel, viewer, ChannelAttachment, ViewerAttachment, Message,
  Runtime, Response, InflightRoute, EphemeralInvoke,
}
use kazibee_home.Coordinator.Effects.{send, close, accept_socket}
use kazibee_home.Coordinator.Keeps.{
  keep_rules, Keeps, keep_modify, keep_seq, keep_with, keep_for_each, keep_send, keep_close,
  keep_accept,
}
use kazibee_home.Coordinator.Chunks.{Chunk}
use kazibee_home.Coordinator.Session.{
  send_session_close, send_session_frame, send_to_viewer, settle_invoke, fail_session_budget,
  on_viewer_message, forget_session, complete_invoke, finish_frame, reassemble, on_chunk,
  on_session_frame, close_viewer, on_session_close, close_all_viewers, reject_ephemeral_offline,
}
use kazibee_home.Coordinator.Invoke.{session_invoke_read, register_invoke, session_invoke_timeout}
use kazibee_home.Coordinator.Channel.{
  replace_socket, accept_channel, accept_viewer, on_hello, on_event,
}
use kazibee_home.Coordinator.Handler.{violation, clear_presence}

pub record Desk : Type 0 where
  pub routes : Map InflightRoute
  pub tickets : ℕ
  pub replies : List (ℕ × Response)

abbrev pub desk : Coordinator → Desk
desk s = record { routes = s.routes; tickets = s.route_tickets; replies = s.route_replies }

module _ (Q : Desk → Type 0) where
  abbrev pub OnDesk : Coordinator → Type 0
  OnDesk s = Q (desk s)

module _ (rt : Runtime) (Q : Desk → Type 0) where
  pub keep_sent : (h : ℕ) (msg : Message) → Keeps (OnDesk Q) (send rt h msg)
  keep_sent h msg = keep_send (λ s ws n p. p) rt h msg

  pub keep_closed : (h code : ℕ) (reason : String) → Keeps (OnDesk Q) (close rt h code reason)
  keep_closed h code reason = keep_close (λ s ws n p. p) rt h code reason

  keep_accepted : (a : Attachment) → Keeps (OnDesk Q) (accept_socket a)
  keep_accepted a = keep_accept (λ s ws n p. p) a

  pub keep_session_close : (h : ℕ) (a b : String) → Keeps (OnDesk Q) (send_session_close rt h a b)
  unfolding send_session_close
  keep_session_close h a b = keep_sent h _

  keep_session_frame : (t h : ℕ) (a b : String) → Keeps (OnDesk Q) (send_session_frame rt t h a b)
  unfolding send_session_frame
  keep_session_frame t h a b =
      keep_seq (keep_modify _ (λ s p. p))
        (keep_with (λ s. keep_for_each (rt.encode_session_frames a b) (λ f. keep_sent h _)))

  keep_settle :
      (a : String) (f : EphemeralInvoke → Response) → Keeps (OnDesk Q) (settle_invoke rt a f)
  unfolding settle_invoke
  keep_settle a f = search (keep_rules) depth 12

  pub keep_viewer_message :
      (t h : ℕ) (a : ViewerAttachment) (m : String)
      → Keeps (OnDesk Q) (on_viewer_message rt t h a m)
  unfolding on_viewer_message
  keep_viewer_message t h a m = search (keep_rules, keep_closed, keep_session_frame) depth 12

  keep_budget : (a : String) → Keeps (OnDesk Q) (fail_session_budget rt a)
  unfolding fail_session_budget
  keep_budget a = search (keep_rules, keep_closed, keep_settle) depth 12

  keep_forget : (o : Option Attachment) → Keeps (OnDesk Q) (forget_session o)
  unfolding forget_session
  keep_forget (some (viewer a)) = search keep_rules
  keep_forget (some (channel a)) = search keep_rules
  keep_forget none = search keep_rules

  keep_to_viewer : (h : ℕ) (m : Message) → Keeps (OnDesk Q) (send_to_viewer rt h m)
  unfolding send_to_viewer
  keep_to_viewer h m = search (keep_rules, keep_sent, keep_closed, keep_forget) depth 12

  keep_complete :
      (a : String) (i : EphemeralInvoke) (t : String) → Keeps (OnDesk Q) (complete_invoke rt a i t)
  unfolding complete_invoke
  keep_complete a i t = search (keep_rules, keep_session_close) depth 12

  keep_finish : (c : Chunk) (t : String) → Keeps (OnDesk Q) (finish_frame rt c t)
  unfolding finish_frame
  keep_finish c t = search (keep_rules, keep_complete, keep_sent) depth 12

  keep_reassemble : (c : Chunk) → Keeps (OnDesk Q) (reassemble rt c)
  unfolding reassemble
  keep_reassemble c = search (keep_rules, keep_budget, keep_finish) depth 12

  keep_chunk : (c : Chunk) → Keeps (OnDesk Q) (on_chunk rt c)
  unfolding on_chunk
  keep_chunk c = search (keep_rules, keep_to_viewer, keep_reassemble) depth 12

  pub keep_on_session_frame : (f : Json) → Keeps (OnDesk Q) (on_session_frame rt f)
  unfolding on_session_frame
  keep_on_session_frame f = search (keep_rules, keep_chunk) depth 12

  keep_close_viewer : (h : ℕ) (r : String) → Keeps (OnDesk Q) (close_viewer rt h r)
  unfolding close_viewer
  keep_close_viewer h r = search (keep_rules, keep_sent, keep_closed) depth 12

  pub keep_on_session_close : (f : Json) → Keeps (OnDesk Q) (on_session_close rt f)
  unfolding on_session_close
  keep_on_session_close f = search (keep_rules, keep_close_viewer, keep_settle) depth 12

  keep_offline : Keeps (OnDesk Q) reject_ephemeral_offline
  unfolding reject_ephemeral_offline
  keep_offline = search keep_rules

  keep_close_all : (r : String) → Keeps (OnDesk Q) (close_all_viewers rt r)
  unfolding close_all_viewers
  keep_close_all r = search (keep_rules, keep_close_viewer) depth 12

  pub keep_invoke_timeout :
      (a : String) (i : EphemeralInvoke) → Keeps (OnDesk Q) (session_invoke_timeout rt a i)
  unfolding session_invoke_timeout
  keep_invoke_timeout a i = search (keep_rules, keep_session_close) depth 12

  keep_register : (a : String) (i : EphemeralInvoke) → Keeps (OnDesk Q) (register_invoke a i)
  unfolding register_invoke
  keep_register a i = record { run = λ s p. p }

  pub keep_invoke_read :
      (t : ℕ) (u v w account : String) (body : Option Json)
      → Keeps (OnDesk Q) (session_invoke_read rt t u v w account body)
  unfolding session_invoke_read
  keep_invoke_read t u v w account body =
      search (keep_rules, keep_sent, keep_session_frame, keep_register) depth 14

  keep_replace : (w : Socket) → Keeps (OnDesk Q) (replace_socket rt w)
  unfolding replace_socket
  keep_replace w = search (keep_rules, keep_close_viewer, keep_closed) depth 12

  pub keep_accept_channel :
      (u : String) (e d g : Option String) → Keeps (OnDesk Q) (accept_channel rt u e d g)
  unfolding accept_channel
  keep_accept_channel u e d g =
      search (keep_rules, keep_replace, keep_offline, keep_accepted) depth 14

  pub keep_accept_viewer :
      (t : ℕ) (u : String) (e a i : Option String) → Keeps (OnDesk Q) (accept_viewer rt t u e a i)
  unfolding accept_viewer
  keep_accept_viewer t u e a i = search (keep_rules, keep_sent, keep_closed, keep_accepted) depth 14

  pub keep_hello :
      (t h : ℕ) (a : ChannelAttachment) (f : Json) → Keeps (OnDesk Q) (on_hello rt t h a f)
  unfolding on_hello
  keep_hello t h a f = search (keep_rules, keep_sent) depth 12

  pub keep_event : (t : ℕ) (a : ChannelAttachment) (f : Json) → Keeps (OnDesk Q) (on_event rt t a f)
  unfolding on_event
  keep_event t a f = search keep_rules depth 12

  pub keep_violation :
      (h : ℕ) (c m : String) (n : ℕ) (r : String) → Keeps (OnDesk Q) (violation rt h c m n r)
  unfolding violation
  keep_violation h c m n r = search (keep_rules, keep_sent, keep_closed)

  pub keep_clear : (f : String) → Keeps (OnDesk Q) (clear_presence rt f)
  unfolding clear_presence
  keep_clear f = search (keep_rules, keep_close_all, keep_offline) depth 12
