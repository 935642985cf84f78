-- ===== src/Coordinator/Handler.antt =====
-- The entry points that the runtime calls: socket messages, socket closes and requests.
use kazibee_home.Prelude.{
  ℕ, String, len, ltb, str_eq, if◌then◌else◌, Bool, true, false, not, ◌&&◌, Option, none, get_or,
}
use kazibee_home.Json.{Json, prop, is_str, is_nullish}
use kazibee_home.Coordinator.State.{
  Attachment, channel, viewer, ChannelAttachment, Message, Runtime, Body, Reply,
  session_frame_limit,
}
use kazibee_home.Coordinator.Effects.{
  M, ◌>>◌, return, done, throw, modify, with_state, attempt, option, attachment_of, send, close,
  executor_socket,
}
use kazibee_home.Coordinator.Session.{
  response, drop_frames, send_session_close, on_viewer_message, on_session_frame, on_session_close,
  close_all_viewers, reject_ephemeral_offline,
}
use kazibee_home.Coordinator.Invoke.{session_invoke_admit, session_invoke_read}
use kazibee_home.Coordinator.Channel.{accept_channel, accept_viewer, on_hello, on_event, presence}
use kazibee_home.Coordinator.Routes.{lose_routes, dispatch, on_accepted, on_result}

-- A socket message.
pub data Inbound : Type 0 where
  text : String → Inbound
  binary : Inbound

-- The parts of a request that `fetch` and what it calls read. The three random texts are those that
-- the handlers draw.
pub record Request : Type 0 where
  pub upgrade : Bool
  pub method : String
  pub pathname : String
  pub executor_id : Option String
  pub device_id : Option String
  pub generation : Option String
  pub account_ref : Option String
  pub session_id : Option String
  pub body : Option Json
  pub uuid12 : String
  pub uuid : String
  pub uuid' : String

module _ (rt : Runtime) where
  -- `ws.send(errorFrame(code, message, true)); ws.close(status, reason)`
  unfoldable pub violation : ℕ → String → String → ℕ → String → M (Unit {0})
  violation h code message status reason = do
    send rt h (Message.channel_error code message true)
    close rt h status reason

  unfoldable pub on_frame : ℕ → ℕ → ChannelAttachment → Json → M (Unit {0})
  on_frame now h a frame =
      let kind = prop "kind" frame in
      if is_str "channel.hello" kind
      then on_hello rt now h a frame
      else if is_str "command.accepted" kind
      then on_accepted rt a frame
      else if is_str "command.result" kind
      then on_result rt a frame
      else if is_str "executor.event" kind
      then on_event rt now a frame
      else if is_str "session.frame" kind
      then on_session_frame rt frame
      else if is_str "session.close" kind
      then on_session_close rt frame
      else send rt h
          (Message.channel_error "EXECUTOR_PROTOCOL_VIOLATION" "unknown frame kind" false)

  -- An executor's message, once it is parsed.
  unfoldable pub check_frame : ℕ → ℕ → ChannelAttachment → ℕ → Json → M (Unit {0})
  check_frame now h a bytes frame =
      let kind = prop "kind" frame in
      let limit =
        if is_str "session.frame" kind then session_frame_limit else rt.limits.result_frame_bytes in
      if ltb limit bytes
      then violation h "EXECUTOR_PROTOCOL_VIOLATION" "frame exceeds result budget" 1009
          "frame too large"
      else if not (is_str rt.protocol_version (prop "protocolVersion" frame))
      then violation h "EXECUTOR_INCOMPATIBLE" "unsupported protocol version" 1008
          "protocol version"
      else if not (is_str "session.frame" kind)
          && not (is_str "session.close" kind)
          && not (is_str a.executor_id (prop "executorId" frame))
      then violation h "EXECUTOR_PROTOCOL_VIOLATION" "executor identity mismatch" 1008
          "identity mismatch"
      else on_frame now h a frame

  unfoldable pub on_channel_message : ℕ → ℕ → ChannelAttachment → String → M (Unit {0})
  on_channel_message now h a message =
      if ltb rt.limits.result_frame_bytes (len message)
      then violation h "EXECUTOR_PROTOCOL_VIOLATION" "frame exceeds result budget" 1009
          "frame too large"
      else option (rt.parse message)
          (violation h "EXECUTOR_PROTOCOL_VIOLATION" "invalid json" 1002 "invalid json")
          (λ frame. if is_nullish frame then throw else check_frame now h a (len message) frame)

  unfoldable pub on_message : ℕ → ℕ → Attachment → String → M (Unit {0})
  on_message now h (viewer a) message =
      attempt (on_viewer_message rt now h a message)
        (attempt (close rt h 4413 "viewer-message-failed") done)
  on_message now h (channel a) message = on_channel_message now h a message

  unfoldable pub web_socket_message : ℕ → ℕ → Inbound → M (Unit {0})
  web_socket_message now h binary = done
  web_socket_message now h (text message) = with_state λ s.
      option (attachment_of h s.sockets) (close rt h 1008 "unidentified channel")
        (λ a. on_message now h a message)

  -- Presence is cleared only by the channel that holds its fence.
  unfoldable pub clear_presence : String → M (Unit {0})
  clear_presence fence = with_state λ s. option s.presence done λ r.
      if not (str_eq r.fence fence) then done else do
        modify (λ s'. record s' { presence = none })
        close_all_viewers rt "executor-offline"
        reject_ephemeral_offline

  unfoldable pub on_close : Attachment → M (Unit {0})
  on_close (viewer a) = do
    drop_frames a.session_id
    with_state λ s.
        option (executor_socket s.sockets) done
          (λ e. send_session_close rt e a.session_id "viewer-closed")
  on_close (channel a) = do clear_presence a.fence; lose_routes a.fence

  -- `webSocketError` calls it too.
  unfoldable pub web_socket_close : ℕ → M (Unit {0})
  web_socket_close h = with_state λ s. option (attachment_of h s.sockets) done on_close

  -- `fetch`. Between the check of `sessionInvoke` and the read of the body other events may run;
  -- here they do not.
  unfoldable pub fetch : ℕ → Request → M Reply
  fetch now q =
      if q.upgrade
      then if str_eq q.pathname "/viewer"
        then accept_viewer rt now q.uuid q.executor_id q.account_ref q.session_id
        else accept_channel rt q.uuid q.executor_id q.device_id q.generation
      else if str_eq q.method "POST" && str_eq q.pathname "/dispatch"
      then dispatch rt now q.body
      else if str_eq q.method "POST" && str_eq q.pathname "/session-invoke"
      then with_state (λ s.
        option (session_invoke_admit s)
          (session_invoke_read rt now q.uuid12 q.uuid q.uuid' (get_or q.account_ref "") q.body)
          (λ r. return (Reply.answered r)))
      else if str_eq q.method "GET" && str_eq q.pathname "/presence"
      then with_state (λ s. return (Reply.answered (presence rt now s)))
      else return (Reply.answered (response 404 (Body.text "not found")))
