-- ===== src/Coordinator/Budgets/Frames.antt =====
-- The budgets of incomplete frames, over the operations of a session.
use kazibee_home.Prelude.{
  ℕ, String, Bool-cases, str_eq, ◌==◌, Option, none, some, [], ◌∷◌, arith, get_or, inl, inr,
}
use kazibee_home.Prelude.Map
use kazibee_home.Prelude.Map.{Map}
use kazibee_home.Json.{Json}
use kazibee_home.Coordinator.State.{
  Coordinator, Attachment, channel, viewer, ViewerAttachment, Message, Runtime, Response,
  EphemeralInvoke, PendingSessionFrame,
}
use kazibee_home.Coordinator.Effects.{send, close, accept_socket, modify}
use kazibee_home.Coordinator.Keeps.{
  Keeps, keep_rules, keep_modify, keep_send, keep_close, keep_accept, keep_if, keep_seq, keep_found,
}
use kazibee_home.Coordinator.Chunks.{Chunk, add_chunk, close_frame}
use kazibee_home.Coordinator.Reassembly.{
  IsWithin, empty-IsWithin, add_chunk-IsWithin, delete-IsWithin,
}
use kazibee_home.Coordinator.Session.{
  send_session_close, send_session_frame, send_to_viewer, settle_invoke, fail_session_budget,
  on_viewer_message, forget_session, complete_invoke, finish_frame, reassemble, on_chunk,
  on_session_frame, close_viewer, on_session_close, close_all_viewers, reject_ephemeral_offline,
}
use kazibee_home.Coordinator.Invoke.{session_invoke_read, register_invoke, session_invoke_timeout}

-- Every session is within its budgets.
abbrev pub AllWithin : Runtime → Map (Map PendingSessionFrame) → Type 0
AllWithin rt [] = Unit {0}
AllWithin rt ((k, m) ∷ fs) = IsWithin rt m × AllWithin rt fs

abbrev pub InBudget : Runtime → Coordinator → Type 0
InBudget rt s = AllWithin rt s.session_frames

module _ (rt : Runtime) where
  within_delete :
      (k : String) (fs : Map (Map PendingSessionFrame))
      → AllWithin rt fs
      → AllWithin rt (Map.delete k fs)
  unfolding Map.delete
  within_delete k [] h = tt
  within_delete k ((j, m) ∷ fs) h = ground (arith, within_delete k fs h.1)

  within_set :
      (k : String) (m : Map PendingSessionFrame) (fs : Map (Map PendingSessionFrame))
      → IsWithin rt m
      → AllWithin rt fs
      → AllWithin rt (Map.set k m fs)
  unfolding Map.set
  within_set k m [] w h = (w, tt)
  within_set k m ((j, n) ∷ fs) w h = elim (Bool-cases (str_eq j k)) [
    | inl e ↦ rw e (w, h.1)
    | inr e ↦ rw e (h.0, within_set k m fs w h.1)
  ]

  IsWithin-get :
      (k : String) (fs : Map (Map PendingSessionFrame))
      → AllWithin rt fs
      → IsWithin rt (get_or (Map.get k fs) [])
  unfolding Map.get
  IsWithin-get k [] h = empty-IsWithin rt
  IsWithin-get k ((j, m) ∷ fs) h = elim (Bool-cases (str_eq j k)) [
    | inl e ↦ rw e h.0
    | inr e ↦ rw e (IsWithin-get k fs h.1)
  ]

  within_close :
      (c : Chunk) (m : Map PendingSessionFrame) (fs : Map (Map PendingSessionFrame))
      → IsWithin rt m
      → AllWithin rt fs
      → AllWithin rt (close_frame c m fs)
  unfolding close_frame
  within_close c m fs w h = elim (Bool-cases (Map.size (Map.delete c.frame_id m) == 0)) [
    | inl e ↦ rw e (within_delete c.session_id fs h)
    | inr e ↦ rw e (within_set c.session_id _ fs (delete-IsWithin rt c.frame_id m w) h)
  ]

  pub sent : (h : ℕ) (msg : Message) → Keeps (InBudget rt) (send rt h msg)
  sent h msg = keep_send (λ s ws n p. p) rt h msg

  pub shut : (h code : ℕ) (reason : String) → Keeps (InBudget rt) (close rt h code reason)
  shut h code reason = keep_close (λ s ws n p. p) rt h code reason

  pub accepted : (a : Attachment) → Keeps (InBudget rt) (accept_socket a)
  accepted a = keep_accept (λ s ws n p. p) a

  pub dropped_frames :
      (k : String)
      → Keeps
          (InBudget rt)
          (modify (λ s. record s { session_frames = Map.delete k s.session_frames }))
  dropped_frames k = keep_modify _ (λ s p. within_delete k s.session_frames p)

  ruleset basics = (dropped_frames, keep_rules, sent, shut, accepted)

  pub closed_session : (h : ℕ) (a b : String) → Keeps (InBudget rt) (send_session_close rt h a b)
  unfolding send_session_close
  closed_session h a b = search basics depth 12

  pub framed : (t h : ℕ) (a b : String) → Keeps (InBudget rt) (send_session_frame rt t h a b)
  unfolding send_session_frame
  framed t h a b = search (basics) depth 14

  settled :
      (a : String) (f : EphemeralInvoke → Response) → Keeps (InBudget rt) (settle_invoke rt a f)
  unfolding settle_invoke
  settled a f = search (basics) depth 14

  pub viewed :
      (t h : ℕ) (a : ViewerAttachment) (m : String)
      → Keeps (InBudget rt) (on_viewer_message rt t h a m)
  unfolding on_viewer_message
  viewed t h a m = search (basics, framed) depth 14

  failed : (a : String) → Keeps (InBudget rt) (fail_session_budget rt a)
  unfolding fail_session_budget
  failed a = search (basics, settled) depth 14

  forgotten : (o : Option Attachment) → Keeps (InBudget rt) (forget_session o)
  unfolding forget_session
  forgotten (some (viewer a)) = search basics
  forgotten (some (channel a)) = search basics
  forgotten none = search basics

  shown : (h : ℕ) (m : Message) → Keeps (InBudget rt) (send_to_viewer rt h m)
  unfolding send_to_viewer
  shown h m = search (basics, forgotten) depth 14

  completed :
      (a : String) (i : EphemeralInvoke) (t : String)
      → Keeps (InBudget rt) (complete_invoke rt a i t)
  unfolding complete_invoke
  completed a i t = search (basics, closed_session) depth 14

  finished : (c : Chunk) (t : String) → Keeps (InBudget rt) (finish_frame rt c t)
  unfolding finish_frame
  finished c t = search (basics, completed) depth 14

  reassembled : (c : Chunk) → Keeps (InBudget rt) (reassemble rt c)
  unfolding reassemble
  reassembled c =
      keep_found (λ s. add_chunk rt c (get_or (Map.get c.session_id s.session_frames) [])) _
        (failed c.session_id)
        (λ s (p, m) e h.
          let w = add_chunk-IsWithin rt c _ m p (IsWithin-get c.session_id s.session_frames h) e in
          (keep_if _ (keep_modify _ (λ s' h'. within_set c.session_id m _ w h'))
              (keep_seq (keep_modify _ (λ s' h'. within_close c m _ w h')) (finished c _))).run
            s h)

  chunked : (c : Chunk) → Keeps (InBudget rt) (on_chunk rt c)
  unfolding on_chunk
  chunked c = search (basics, shown, reassembled) depth 14

  pub frame_received : (f : Json) → Keeps (InBudget rt) (on_session_frame rt f)
  unfolding on_session_frame
  frame_received f = search (basics, chunked) depth 14

  pub viewer_closed : (h : ℕ) (r : String) → Keeps (InBudget rt) (close_viewer rt h r)
  unfolding close_viewer
  viewer_closed h r = search (basics) depth 14

  pub close_received : (f : Json) → Keeps (InBudget rt) (on_session_close rt f)
  unfolding on_session_close
  close_received f = search (basics, viewer_closed, settled) depth 14

  pub rejected : Keeps (InBudget rt) (reject_ephemeral_offline)
  unfolding reject_ephemeral_offline
  rejected = search (basics) depth 14

  pub all_closed : (r : String) → Keeps (InBudget rt) (close_all_viewers rt r)
  unfolding close_all_viewers
  all_closed r = search (basics, viewer_closed) depth 14

  pub timed_out :
      (a : String) (i : EphemeralInvoke) → Keeps (InBudget rt) (session_invoke_timeout rt a i)
  unfolding session_invoke_timeout
  timed_out a i = search (basics, closed_session) depth 14

  registered : (a : String) (i : EphemeralInvoke) → Keeps (InBudget rt) (register_invoke a i)
  unfolding register_invoke
  registered a i = record { run = λ s p. p }

  pub invoked :
      (t : ℕ) (u v w account : String) (body : Option Json)
      → Keeps (InBudget rt) (session_invoke_read rt t u v w account body)
  unfolding session_invoke_read
  invoked t u v w account body = search (basics, framed, registered) depth 14
