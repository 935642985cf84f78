-- ===== src/Coordinator/Routes.antt =====
-- Commands in flight: a dispatched command waits for the executor's result under its operation id.
use kazibee_home.Prelude.{
  ℕ, String, ◌+◌, ◌-◌, ◌==◌, leb, str_eq, if◌then◌else◌, Bool, true, false, not, ◌||◌, Option, none,
  some, List, [], ◌∷◌, max, min,
}
use kazibee_home.Prelude.Map
use kazibee_home.Prelude.Map.{Map}
use kazibee_home.Json.{Json, undefined, prop, string?, is_nullish}
use kazibee_home.Coordinator.State.{
  Coordinator, ChannelAttachment, Message, Runtime, Response, Body, Reply, InflightRoute,
  PresenceState, online, max_inflight_routes, accept_timeout_ms, default_route_deadline_ms,
  max_route_deadline_ms, route_deadline_grace_ms,
}
use kazibee_home.Coordinator.Effects.{
  M, ◌>>◌, return, done, throw, modify, with_state, attempt, option, send, answer_route,
  executor_socket,
}
use kazibee_home.Coordinator.Session.{response}
use kazibee_home.Coordinator.Channel.{text_or_empty, live_record, presence_state}

abbrev pub is_online : PresenceState → Bool
is_online online = true
is_online _ = false

-- `payload?.k`
abbrev pub prop? : String → Json → Json
prop? k v = if is_nullish v then undefined else prop k v

-- The answer of `webSocketClose` to a route whose channel is gone.
unfoldable pub lost_reply : InflightRoute → Response
lost_reply r =
    if r.accepted
    then response 502 (
        Body.coded "RESULT_ROUTE_LOST"
          "The executor accepted this operation but the result route was lost.")
    else response 502
        (Body.coded "EXECUTOR_OFFLINE" "The executor disconnected before accepting this operation.")

-- The loop over the routes in `webSocketClose`, which deletes the entry that it visits.
unfoldable pub routes_kept : String → Map InflightRoute → Map InflightRoute
routes_kept fence [] = []
routes_kept fence ((k, r) ∷ m) =
    let rest = routes_kept fence m in if str_eq r.fence fence then rest else (k, r) ∷ rest

unfoldable pub routes_lost : String → Map InflightRoute → List (ℕ × Response) → List (ℕ × Response)
routes_lost fence [] replies = replies
routes_lost fence ((k, r) ∷ m) replies =
    routes_lost fence m
      (if str_eq r.fence fence then (r.ticket, lost_reply r) ∷ replies else replies)

unfoldable pub lose_routes : String → M (Unit {0})
lose_routes fence = modify (λ s. record s {
  routes = routes_kept fence s.routes;
  route_replies = routes_lost fence s.routes s.route_replies;
})

module _ (rt : Runtime) where
  -- A time that is past gives `remaining` 0 here and a negative number in the source; both are
  -- raised to one second.
  unfoldable pub route_deadline_ms : ℕ → Json → ℕ
  route_deadline_ms now payload =
      min (max remaining 1000) max_route_deadline_ms + route_deadline_grace_ms
    where
      remaining : ℕ
      remaining =
          option (string? (prop? "deadlineAt" payload)) default_route_deadline_ms
            (λ t. option (rt.date_parse t) default_route_deadline_ms (λ raw. raw - now))

  -- `String(payload?.operationId ?? "")`
  unfoldable pub operation_id_of : Json → String
  operation_id_of command = text_or_empty rt (prop? "operationId" (prop "payload" command))

  abbrev pub new_route : ℕ → String → String → Json → Coordinator → InflightRoute
  new_route now operation_id fence command s = record {
    operation_id = operation_id;
    command_id = text_or_empty rt (prop "commandId" command);
    fence = fence;
    ticket = s.route_tickets;
    accept_timer = some (now + accept_timeout_ms);
    result_timer = some (now + route_deadline_ms now (prop "payload" command));
    accepted = false;
  }

  -- The body of the promise in `dispatch`.
  unfoldable pub register_route : ℕ → ℕ → String → String → Json → M Reply
  register_route now h operation_id fence command = with_state λ s. do
    modify (λ s'. record s' {
      routes = Map.set operation_id (new_route now operation_id fence command s) s'.routes;
      route_tickets = s'.route_tickets + 1;
    })
    attempt (send rt h (Message.command command)) (do
      modify (λ s'. record s' { routes = Map.delete operation_id s'.routes })
      answer_route s.route_tickets
          (response 502 (Body.coded "EXECUTOR_OFFLINE" "The channel closed during dispatch.")))
    return (Reply.dispatched s.route_tickets)

  -- The command is routed if it names a new operation and the object has room.
  unfoldable pub route_command : ℕ → ℕ → String → Json → M Reply
  route_command now h fence command = with_state λ s.
      if leb max_inflight_routes (Map.size s.routes)
      then return (
          Reply.answered
            (response 429 (Body.backpressure "BACKPRESSURE" "Too many operations in flight." 1000)))
      else if is_nullish command
      then throw
      else if str_eq (operation_id_of command) ""
          || str_eq (text_or_empty rt (prop "commandId" command)) ""
          || Map.has (operation_id_of command) s.routes
      then return (
          Reply.answered
            (response 400 (Body.coded "INVALID_FRAME" "missing or duplicate operation id")))
      else register_route now h (operation_id_of command) fence command

  unfoldable pub dispatch : ℕ → Option Json → M Reply
  dispatch now body =
      option body
        (return (Reply.answered (response 400 (Body.coded "INVALID_FRAME" "invalid json"))))
        λ command. with_state λ s. option (executor_socket s.sockets) offline_reply λ h.
          option (live_record s) offline_reply λ r.
            if not (is_online (presence_state rt now (some r) true))
            then offline_reply
            else route_command now h r.fence command
    where
      offline_reply : M Reply
      offline_reply = return (
          Reply.answered
            (response 503 (Body.coded "EXECUTOR_OFFLINE" "The executor is not connected.")))

  unfoldable pub on_accepted : ChannelAttachment → Json → M (Unit {0})
  on_accepted a frame = with_state λ s.
      let operation_id = rt.to_text (prop "operationId" frame) in
      option (Map.get operation_id s.routes) done λ r.
        if not (str_eq r.fence a.fence)
        then done
        else modify (λ s'. record s' {
          routes =
              Map.set operation_id (record r { accepted = true; accept_timer = none }) s'.routes;
        })

  unfoldable pub on_result : ChannelAttachment → Json → M (Unit {0})
  on_result a frame = with_state λ s.
      let operation_id = rt.to_text (prop "operationId" frame) in
      option (Map.get operation_id s.routes) done λ r.
        if not (str_eq r.fence a.fence) then done else do
          modify (λ s'. record s' { routes = Map.delete operation_id s'.routes })
          answer_route r.ticket (response 200 (Body.frame frame))

-- A timer of the route that holds this ticket fires: nothing happens unless the route is still the
-- one registered under its operation id.
unfoldable pub expire_route : String → ℕ → Response → M (Unit {0})
expire_route operation_id ticket reply = with_state λ s.
    option (Map.get operation_id s.routes) done λ r. if not (r.ticket == ticket) then done else do
      modify (λ s'. record s' { routes = Map.delete operation_id s'.routes })
      answer_route ticket reply

unfoldable pub accept_timeout : String → ℕ → M (Unit {0})
accept_timeout operation_id ticket =
    expire_route operation_id ticket
      (response 502 (Body.coded "EXECUTOR_ACCEPT_TIMEOUT" "The executor did not accept in time."))

unfoldable pub result_timeout : String → ℕ → M (Unit {0})
result_timeout operation_id ticket = expire_route operation_id ticket (
    response 502
      (Body.coded "DEADLINE_EXCEEDED" "The executor did not return a result before the deadline."))
