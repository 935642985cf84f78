-- ===== src/Coordinator/Channel.antt =====
-- The executor channel and its presence: upgrades, hello, events, and the presence record.
use kazibee_home.Prelude.{
  ℕ, String, ◌-◌, ltb, str_eq, if◌then◌else◌, Bool, true, false, not, Option, none, some, List, [],
  ◌∷◌, max,
}
use kazibee_home.Prelude.Map
use kazibee_home.Json.{Json, null, str, prop, or_else}
use kazibee_home.Coordinator.State.{
  Coordinator, Socket, channel, viewer, ChannelAttachment, Message, Runtime, Response, Body, Reply,
  PresenceRecord, PresenceState, online, stale, offline,
}
use kazibee_home.Coordinator.Effects.{
  M, ◌>>=◌, ◌>>◌, return, done, modify, with_state, attempt, option, for_each, is_viewer,
  update_socket, send, close, accept_socket, executor_socket,
}
use kazibee_home.Coordinator.Chunks.{◌⧺◌}
use kazibee_home.Coordinator.Session.{response, reject_ephemeral_offline, close_viewer}

-- A header that is present and not empty.
abbrev pub header? : Option String → Option String
header? h = option h none (λ s. if str_eq s "" then none else some s)

-- The later of the stored time and the runtime's automatic pongs on the executor sockets.
unfoldable pub last_seen : ℕ → List Socket → ℕ
last_seen t [] = t
last_seen t (w ∷ ws) =
    last_seen (if is_viewer w.attachment then t else option w.answered_at t (max t)) ws

unfoldable pub live_record : Coordinator → Option PresenceRecord
unfolding last_seen
live_record s =
    option s.presence none
      (λ r. some (record r { last_seen_at = last_seen r.last_seen_at s.sockets }))

module _ (rt : Runtime) where
  -- `now - lastSeenAt` is negative when the pong is in the future; it is then no more than either
  -- limit, as the 0 here.
  unfoldable pub presence_state : ℕ → Option PresenceRecord → Bool → PresenceState
  presence_state now none has_socket = offline
  presence_state now (some r) has_socket =
      if not has_socket
      then offline
      else if ltb rt.limits.offline_after_ms (now - r.last_seen_at)
      then offline
      else if ltb rt.limits.stale_after_ms (now - r.last_seen_at)
      then stale
      else online

  -- The loop over the sockets in `acceptChannel`.
  unfoldable pub replace_socket : Socket → M (Unit {0})
  replace_socket w =
      if is_viewer w.attachment
      then close_viewer rt w.handle "executor-offline"
      else attempt (close rt w.handle 1012 "replaced by newer channel") done

  -- The random text is the one that the fence is made of.
  unfoldable pub accept_channel :
      (uuid : String) (executor_id device_id generation : Option String) → M Reply
  accept_channel uuid executor_id device_id generation =
      option (header? executor_id) missing λ executor. option (header? device_id) missing λ device.
        option (option generation (rt.to_index null) (λ g. rt.to_index (str g))) missing λ n.
          if ltb n 1 then missing else do
            with_state (λ s. for_each s.sockets replace_socket)
            modify (λ s. record s { session_frames = [] })
            reject_ephemeral_offline
            h ← accept_socket (
                channel (record {
                  executor_id = executor;
                  device_id = device;
                  credential_generation = n;
                  fence = "fence_" ⧺ uuid;
                  hello_at = 0;
                }))
            return (Reply.answered (response 101 (Body.upgraded h)))
    where
      missing : M Reply
      missing = return (Reply.answered (response 400 (Body.text "missing channel identity")))

  unfoldable pub accept_viewer :
      ℕ → (uuid : String) (executor_id account_ref session_id : Option String) → M Reply
  accept_viewer now uuid executor_id account_ref session_id =
      option (header? executor_id) missing λ executor.
        option (header? account_ref) missing λ account.
          option (header? session_id) missing λ session.
            let a =
              viewer
                (record { executor_id = executor; account_ref = account; session_id = session }) in
            with_state λ s.
              option (executor_socket s.sockets)
                (do
                  h ← accept_socket a
                  close rt h 4404 "executor-offline"
                  return (Reply.answered (response 101 (Body.upgraded h))))
                (λ e. do
                  h ← accept_socket a
                  send rt e (Message.session_open session account ("cor_" ⧺ uuid) now)
                  send rt h (Message.session_ready session)
                  return (Reply.answered (response 101 (Body.upgraded h))))
    where
      missing : M Reply
      missing = return (Reply.answered (response 400 (Body.text "missing viewer identity")))

  -- `String(v ?? "")`
  unfoldable pub text_or_empty : Json → String
  text_or_empty v = rt.to_text (or_else v (str ""))

  unfoldable pub on_hello : ℕ → ℕ → ChannelAttachment → Json → M (Unit {0})
  on_hello now h a frame = do
    modify (λ s. record s {
      sockets =
          update_socket h
            (λ w. record w { attachment = some (channel (record a { hello_at = now })) }) s.sockets;
      presence = some (record {
        executor_id = a.executor_id;
        device_id = a.device_id;
        credential_generation = a.credential_generation;
        fence = a.fence;
        last_seen_at = now;
        executor_version = text_or_empty (prop "executorVersion" frame);
        platform = text_or_empty (prop "platform" frame);
        capabilities = or_else (prop "capabilities" frame) null;
        workspaces = or_else (prop "workspaces" frame) null;
      });
    })
    send rt h
        (Message.hello_ack a.executor_id a.fence (or_else (prop "correlationId" frame) null) now)

  -- The stored record after an event of its own channel.
  unfoldable pub event_record : ℕ → Json → PresenceRecord → PresenceRecord
  event_record now frame r =
      let kind = rt.to_text (prop "eventType" frame) in
      if str_eq kind "remote_tool.capabilities.changed"
      then record r {
        last_seen_at = now;
        capabilities = or_else (prop "payload" frame) r.capabilities;
      }
      else if str_eq kind "remote_tool.workspaces.changed"
      then record r { last_seen_at = now; workspaces = or_else (prop "payload" frame) r.workspaces }
      else r

  unfoldable pub on_event : ℕ → ChannelAttachment → Json → M (Unit {0})
  on_event now a frame = with_state λ s. option s.presence done λ r.
      if not (str_eq r.fence a.fence)
      then done
      else modify (λ s'. record s' { presence = some (event_record now frame r) })

  unfoldable pub presence : ℕ → Coordinator → Response
  presence now s =
      let live = live_record s in
      response 200 (
        Body.presence_of (record {
          state = presence_state now live (option (executor_socket s.sockets) false (λ _. true));
          record_seen = live;
          inflight = Map.size s.routes;
        }))
