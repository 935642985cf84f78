-- ===== src/Coordinator/Run.antt =====
-- What can happen to a coordinator, one event after the other, and the state after each.
use kazibee_home.Prelude.{ℕ, String, ◌==◌, not, none, some, List, [], ◌∷◌, keep}
use kazibee_home.Coordinator.State.{Coordinator, Runtime, EphemeralInvoke}
use kazibee_home.Coordinator.Effects.{update_socket}
use kazibee_home.Coordinator.Invoke.{session_invoke_timeout}
use kazibee_home.Coordinator.Routes.{accept_timeout, result_timeout}
use kazibee_home.Coordinator.Handler.{Inbound, Request, web_socket_message, web_socket_close, fetch}

-- The calls of the runtime, the timers that fire, and what the runtime does to the sockets itself:
-- it answers a ping, and it drops a socket that has closed.
pub data Event : Type 0 where
  message : ℕ → ℕ → Inbound → Event
  closed : ℕ → Event
  request : ℕ → Request → Event
  accept_timer result_timer : String → ℕ → Event
  invoke_timer : String → EphemeralInvoke → Event
  ponged : ℕ → ℕ → Event
  dropped : ℕ → Event

-- The coordinator of an executor that was never called.
unfoldable pub fresh : Coordinator
fresh = record {
  sockets = [];
  next_handle = 0;
  presence = none;
  routes = [];
  route_tickets = 0;
  route_replies = [];
  session_frames = [];
  ephemeral = [];
  invoke_tickets = 0;
  invoke_replies = [];
  frame_counter = 0;
}

module _ (rt : Runtime) where
  unfoldable pub step : Coordinator → Event → Coordinator
  step s (message now h m) = (web_socket_message rt now h m s).1
  step s (closed h) = (web_socket_close rt h s).1
  step s (request now q) = (fetch rt now q s).1
  step s (accept_timer operation_id ticket) = (accept_timeout operation_id ticket s).1
  step s (result_timer operation_id ticket) = (result_timeout operation_id ticket s).1
  step s (invoke_timer session_id invoke) = (session_invoke_timeout rt session_id invoke s).1
  step s (ponged h t) = record s {
    sockets = update_socket h (λ w. record w { answered_at = some t }) s.sockets;
  }
  step s (dropped h) = record s { sockets = keep (λ w. not (w.handle == h)) s.sockets }

  unfoldable pub run : Coordinator → List Event → Coordinator
  run s [] = s
  run s (e ∷ es) = run (step s e) es
