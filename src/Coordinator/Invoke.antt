-- ===== src/Coordinator/Invoke.antt =====
-- `sessionInvoke`: a request of the worker that opens a session of its own and waits for its reply.
use kazibee_home.Prelude.{ℕ, String, ◌+◌, leb, if◌then◌else◌, Option, none, some}
use kazibee_home.Prelude.Map
use kazibee_home.Prelude.Map.{Map}
use kazibee_home.Json.{Json, str, obj, end, field, prop, is_nullish}
use kazibee_home.Coordinator.State.{
  Coordinator, Message, Runtime, Response, Body, Reply, EphemeralInvoke, max_ephemeral_invokes,
  session_invoke_timeout_ms,
}
use kazibee_home.Coordinator.Effects.{
  M, ok, ◌>>=◌, ◌>>◌, return, done, throw, modify, with_state, option, send, answer_invoke,
  executor_socket,
}
use kazibee_home.Coordinator.Chunks.{◌⧺◌, filled?}
use kazibee_home.Coordinator.Session.{response, drop_frames, send_session_close, send_session_frame}

-- `sessionInvoke` up to the read of the body.
unfoldable pub session_invoke_admit : Coordinator → Option Response
session_invoke_admit s =
    if leb max_ephemeral_invokes (Map.size s.ephemeral)
    then some (response 429 (Body.code_only "BACKPRESSURE"))
    else none

-- A promise that waits for the reply of a session, with its timer.
unfoldable pub register_invoke : String → EphemeralInvoke → M ℕ
register_invoke session_id invoke s = (
  ok invoke.ticket,
  record s {
    ephemeral = Map.set session_id invoke s.ephemeral;
    invoke_tickets = invoke.ticket + 1;
  },
)

module _ (rt : Runtime) where
  -- The rest of `sessionInvoke`. The random texts are the three that the code draws.
  unfoldable pub session_invoke_read :
      ℕ → (uuid12 uuid uuid' : String) → String → Option Json → M Reply
  session_invoke_read now uuid12 uuid uuid' account_ref body =
      option body (refuse 400 "INVALID_FRAME") λ request.
        if is_nullish request
        then throw
        else option (filled? (prop "channel" request)) (refuse 400 "INVALID_FRAME") λ target.
          with_state λ s. option (executor_socket s.sockets) (refuse 503 "EXECUTOR_OFFLINE") λ e. do
            send rt e (Message.session_open session_id account_ref ("cor_" ⧺ uuid') now)
            ticket ← register_invoke session_id (record {
              id = id;
              ticket = s.invoke_tickets;
              timer = now + session_invoke_timeout_ms;
            })
            send_session_frame rt now e session_id
                (rt.stringify (call target (prop "payload" request)))
            return (Reply.invoked ticket)
    where
      session_id : String
      session_id = "vs_" ⧺ rt.base36 now ⧺ "_" ⧺ uuid12

      id : String
      id = "inv_" ⧺ uuid

      refuse : ℕ → String → M Reply
      refuse status code = return (Reply.answered (response status (Body.code_only code)))

      call : String → Json → Json
      call target payload = obj (
          field "type" (str "invoke")
            (field "id" (str id) (field "channel" (str target) (field "payload" payload end))))

  -- The timer of an invoke fires.
  unfoldable pub session_invoke_timeout : String → EphemeralInvoke → M (Unit {0})
  session_invoke_timeout session_id invoke = do
    modify (λ s. record s { ephemeral = Map.delete session_id s.ephemeral })
    drop_frames session_id
    with_state λ s.
        option (executor_socket s.sockets) done
          (λ e. send_session_close rt e session_id "ephemeral-timeout")
    answer_invoke invoke.ticket (response 504 (Body.invoke_error invoke.id "timeout"))
