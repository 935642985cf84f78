-- ===== src/Coordinator/Session.antt =====
-- Viewer sessions: frames between a viewer or a waiting invoke and the executor.
use kazibee_home.Prelude.{
  ℕ, String, ◌+◌, ◌==◌, str_eq, if◌then◌else◌, Bool, not, ◌||◌, Option, some, List, [], ◌∷◌, get_or,
}
use kazibee_home.Prelude.Map
use kazibee_home.Prelude.Map.{Map}
use kazibee_home.Json.{Json, prop, string?, is_str, is_nullish, is_reference}
use kazibee_home.Coordinator.State.{
  Attachment, viewer, ViewerAttachment, Message, Runtime, Response, Body, EphemeralInvoke,
}
use kazibee_home.Coordinator.Effects.{
  M, ◌>>◌, done, throw, modify, with_state, attempt, option, for_each, is_viewer, attachment_of,
  send, close, answer_invoke, executor_socket, viewer_socket,
}
use kazibee_home.Coordinator.Chunks.{◌⧺◌, filled?, Chunk, join, chunk_of, add_chunk, close_frame}

abbrev pub response : ℕ → Body → Response
response status body = record { status = status; body = body }

abbrev pub drop_frames : String → M (Unit {0})
drop_frames session_id =
    modify (λ s. record s { session_frames = Map.delete session_id s.session_frames })

unfoldable pub forget_session : Option Attachment → M (Unit {0})
forget_session (some (viewer a)) = drop_frames a.session_id
forget_session _ = done

module _ (rt : Runtime) where
  unfoldable pub send_session_close : ℕ → String → String → M (Unit {0})
  send_session_close h session_id reason = send rt h (Message.session_close session_id reason)

  unfoldable pub send_session_frame : ℕ → ℕ → String → String → M (Unit {0})
  send_session_frame now h session_id payload = do
    modify (λ s. record s { frame_counter = s.frame_counter + 1 })
    with_state λ s.
        let frame_id = "sf_" ⧺ rt.base36 now ⧺ "_" ⧺ rt.base36 s.frame_counter in
        for_each (rt.encode_session_frames session_id payload)
          (λ f. send rt h (Message.session_frame f frame_id))

  unfoldable pub send_to_viewer : ℕ → Message → M (Unit {0})
  send_to_viewer h msg = attempt (send rt h msg) (
      with_state λ s. do
        forget_session (attachment_of h s.sockets)
        attempt (close rt h 4413 "viewer-send-failed") done)

  -- The waiting invoke of a session, if there is one, is answered and forgotten.
  unfoldable pub settle_invoke : String → (EphemeralInvoke → Response) → M (Unit {0})
  settle_invoke session_id answer = with_state λ s.
      option (Map.get session_id s.ephemeral) done λ invoke. do
        modify (λ s'. record s' { ephemeral = Map.delete session_id s'.ephemeral })
        answer_invoke invoke.ticket (answer invoke)

  unfoldable pub fail_session_budget : String → M (Unit {0})
  fail_session_budget session_id = do
    drop_frames session_id
    with_state λ s.
        option (viewer_socket session_id s.sockets) done (λ h. close rt h 4413 "budget-exceeded")
    settle_invoke session_id (λ i. response 502 (Body.invoke_error i.id "budget exceeded"))

  unfoldable pub on_viewer_message : ℕ → ℕ → ViewerAttachment → String → M (Unit {0})
  on_viewer_message now h a message =
      option (rt.parse message) (close rt h 4400 "bad-frame") λ frame.
        if not (is_reference frame) || not (allowed (prop "type" frame))
        then close rt h 4400 "bad-frame"
        else with_state λ s.
          option (executor_socket s.sockets) (close rt h 4404 "executor-offline")
            (λ e. send_session_frame now e a.session_id message)
    where
      -- `allowed.has(String(frame.type))`
      allowed : Json → Bool
      allowed v =
          let t = rt.to_text v in
          str_eq t "invoke"
          || str_eq t "subscribe"
          || str_eq t "subscribe-all"
          || str_eq t "unsubscribe"

  -- The reply of an executor to a waiting invoke.
  unfoldable pub complete_invoke : String → EphemeralInvoke → String → M (Unit {0})
  complete_invoke session_id invoke complete = option (rt.parse complete) done λ result.
      if is_nullish result
      then throw
      else if not (is_str "result" (prop "type" result) || is_str "error" (prop "type" result))
          || not (is_str invoke.id (prop "id" result))
      then done
      else do
        modify (λ s. record s { ephemeral = Map.delete session_id s.ephemeral })
        with_state λ s.
            option (executor_socket s.sockets) done
              (λ e. send_session_close e session_id "ephemeral-complete")
        answer_invoke invoke.ticket (response 200 (Body.frame result))

  unfoldable pub finish_frame : Chunk → String → M (Unit {0})
  finish_frame c complete = with_state λ s.
      option (Map.get c.session_id s.ephemeral)
        (option (viewer_socket c.session_id s.sockets) done (λ h. send rt h (Message.raw complete)))
        (λ invoke. complete_invoke c.session_id invoke complete)

  -- The chunk of a session that an invoke waits on.
  unfoldable pub reassemble : Chunk → M (Unit {0})
  reassemble c = with_state λ s.
      option (add_chunk rt c (get_or (Map.get c.session_id s.session_frames) []))
        (fail_session_budget c.session_id)
        (λ (p, frames).
          if not (p.next_index == p.chunk_count)
          then modify
              (λ s'. record s' { session_frames = Map.set c.session_id frames s'.session_frames })
          else do
            modify (λ s'. record s' { session_frames = close_frame c frames s'.session_frames })
            finish_frame c (join p.payload))

  unfoldable pub on_chunk : Chunk → M (Unit {0})
  on_chunk c = with_state λ s.
      if not (Map.has c.session_id s.ephemeral)
      then option (viewer_socket c.session_id s.sockets) done (λ h. send_to_viewer h (
          if c.count == 1
          then Message.raw c.payload
          else Message.session_chunk c.frame_id c.index c.count c.payload))
      else reassemble c

  unfoldable pub on_session_frame : Json → M (Unit {0})
  on_session_frame frame = option (chunk_of rt frame) done on_chunk

  unfoldable pub close_viewer : ℕ → String → M (Unit {0})
  close_viewer h reason =
      attempt (do send rt h (Message.session_closed reason); close rt h 4001 reason) done

  unfoldable pub on_session_close : Json → M (Unit {0})
  on_session_close frame = option (filled? (prop "sessionId" frame)) done λ session_id.
      let reason = get_or (string? (prop "reason" frame)) "executor-closed" in
      do
        drop_frames session_id
        with_state
            λ s. option (viewer_socket session_id s.sockets) done (λ h. close_viewer h reason)
        settle_invoke session_id (λ i. response 502 (Body.invoke_error i.id reason))

  unfoldable pub close_all_viewers : String → M (Unit {0})
  close_all_viewers reason = do
    modify (λ s. record s { session_frames = [] })
    with_state λ s.
        for_each s.sockets
          (λ w. if is_viewer w.attachment then close_viewer w.handle reason else done)

-- The answers of `rejectEphemeralOffline`, for each waiting invoke in turn.
unfoldable pub offline_replies : Map EphemeralInvoke → List (ℕ × Response) → List (ℕ × Response)
offline_replies [] replies = replies
offline_replies ((k, i) ∷ m) replies =
    offline_replies m
      ((i.ticket, response 503 (Body.invoke_error i.id "executor-offline")) ∷ replies)

unfoldable pub reject_ephemeral_offline : M (Unit {0})
reject_ephemeral_offline = modify (λ s. record s {
  ephemeral = [];
  invoke_replies = offline_replies s.ephemeral s.invoke_replies;
})
