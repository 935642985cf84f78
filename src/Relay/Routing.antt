-- ===== src/Relay/Routing.antt =====
-- Commands and outputs of src/server/services/connect_client_relay_service.ts. `command` waits twice:
-- for the identity of the deployment, and for the rows of the owner and of the executor; it is cut
-- there into `begin_command`, `look_up` and `route_command`, and anything may happen in between.
use kazibee_home.Prelude.{
  ℕ, String, ◌+◌, ◌-◌, ◌==◌, leb, str_eq, if◌then◌else◌, Bool, true, false, not, ◌&&◌, ◌||◌, Option,
  none, some, [], ◌∷◌,
}
use kazibee_home.Prelude.Map
use kazibee_home.Prelude.Map.{Map}
use kazibee_home.Relay.State.{
  Relay, Route, DesktopConnection, ClientRelayActor, OutboundFrame, OwnerEvent, Outcome, accepted,
  accept_timeout, unauthorized, overloaded, website_deployment_mismatch, unavailable,
  relay_authority, same_authority, write_to, resolve, is_pending_of, remove_route,
  remove_desktop_routes, max_routes, max_pending_accepts, max_device_in_flight, rate_window_ms,
  max_commands_per_window, accept_timeout_ms,
}
use kazibee_home.Relay.Links.{end_sink, drop_desktop}
use kazibee_home.Relay.Source.{CommandFrame, nested_target_fence}

unfoldable pub take_rate : ℕ → String → Relay → Bool × Relay
take_rate now device_id r = elim (Map.get device_id r.rates) [
  | none ↦ start
  | some current ↦
      if leb rate_window_ms (now - current.window_started_ms)
      then start
      else if leb max_commands_per_window current.count
      then (false, r)
      else (
        true,
        record r {
          rates = Map.set device_id (record current { count = current.count + 1 }) r.rates;
        },
      )
]
  where
    start : Bool × Relay
    start = (
      true,
      record r {
        rates = Map.set device_id (record { window_started_ms = now; count = 1 }) r.rates;
      },
    )

-- What a part of `command` ends with: an answer, or the wait for the rows.
pub data Begun : Type 0 where
  replied : Outcome → Begun
  looking_up : DesktopConnection → Begun

-- `!connection || !sameAuthority(…) || frame.deviceId !== … || frame.actorRole !== …`
unfoldable pub is_admitted : ClientRelayActor → CommandFrame → DesktopConnection → Bool
unfolding same_authority relay_authority
is_admitted actor frame c =
    same_authority c.authority (relay_authority actor)
    && str_eq frame.device_id actor.device_id
    && str_eq frame.actor_role "desktop_device"

-- `if (!this.takeRate(…)) return { outcome: "overloaded" }`
unfoldable pub after_rate : DesktopConnection → Bool × Relay → Begun × Relay
after_rate c (true, r) = (looking_up c, r)
after_rate c (false, r) = (replied overloaded, r)

unfoldable pub admit_command :
    ℕ → ClientRelayActor → CommandFrame → DesktopConnection → Relay → Begun × Relay
admit_command now actor frame c r =
    if not (is_admitted actor frame c)
    then (replied unauthorized, r)
    else after_rate c (take_rate now actor.device_id r)

-- `command` up to its second wait; `none` is a deployment whose identity could not be read.
unfoldable pub begin_command :
    ℕ → (deployment : Option String) → ClientRelayActor → CommandFrame → Relay → Begun × Relay
begin_command now none actor frame r = (replied unavailable, r)
begin_command now (some deployment) actor frame r =
    if not (str_eq frame.website_deployment_id deployment)
    then (replied website_deployment_mismatch, r)
    else elim (nested_target_fence frame) [
      | some outcome ↦ (replied outcome, r)
      | none ↦ elim (Map.get actor.device_id r.desktops) [
        | none ↦ (replied unauthorized, r)
        | some c ↦ admit_command now actor frame c r
      ]
    ]

unfoldable pub device_route_count : String → Map Route → ℕ
device_route_count device_id [] = 0
device_route_count device_id ((k, route) ∷ m) =
    (if str_eq route.device_id device_id then 1 else 0) + device_route_count device_id m

unfoldable pub is_overloaded : String → CommandFrame → Relay → Bool
unfolding device_route_count
is_overloaded device_id frame r =
    leb max_pending_accepts (Map.size r.pending)
    || leb max_routes (Map.size r.by_command)
    || leb max_device_in_flight (device_route_count device_id r.by_command)
    || Map.has frame.command_id r.by_command
    || Map.has frame.correlation_id r.by_correlation

abbrev pub route_of : ClientRelayActor → CommandFrame → DesktopConnection → ℕ → Route
route_of actor frame c serial = record {
  serial = serial;
  command_id = frame.command_id;
  correlation_id = frame.correlation_id;
  idempotency_key = frame.idempotency_key;
  executor_id = frame.executor_id;
  device_id = actor.device_id;
  desktop_fence = c.fence;
  authority = relay_authority actor;
}

-- The body of the promise: the timer is armed, and the route entered in the three tables.
unfoldable pub enter_route : ℕ → Route → Relay → Relay
enter_route now route r = record r {
  pending =
      Map.set route.command_id (record { route = route; timeout = now + accept_timeout_ms })
        r.pending;
  by_command = Map.set route.command_id route r.by_command;
  by_correlation = Map.set route.correlation_id route r.by_correlation;
  routed = r.routed + 1;
}

-- The callback of the timer: `pending.route === route`, and `removeRoute` with no answer of its own.
unfoldable pub expire : (command_id : String) (serial : ℕ) → Relay → Relay
expire command_id serial r = elim (Map.get command_id r.pending) [
  | none ↦ r
  | some p ↦
      if not (p.route.serial == serial)
      then r
      else resolve serial accept_timeout (remove_route p.route none r)
]

-- What a refused dispatch does to the route, unless the route is gone already.
unfoldable pub refuse_route : Route → Outcome → Relay → Relay
refuse_route route outcome r =
    if is_pending_of route (Map.get route.command_id r.pending)
    then resolve route.serial outcome (remove_route route none r)
    else r

-- Whether the frame accepts the command that waits: of its executor, with both of its other ids.
unfoldable pub is_acceptance : (executor_id : String) → OutboundFrame → Route → Bool
is_acceptance executor_id frame route =
    str_eq route.executor_id executor_id
    && str_eq route.correlation_id frame.correlation_id
    && is_key route.idempotency_key frame.idempotency_key
  where
    is_key : String → Option String → Bool
    is_key key none = false
    is_key key (some k) = str_eq key k

unfoldable pub accept : (executor_id : String) → OutboundFrame → Relay → Bool × Relay
unfolding is_acceptance
accept executor_id frame r = elim frame.command_id [
  | none ↦ (false, r)
  | some command_id ↦ elim (Map.get command_id r.pending) [
    | none ↦ (false, r)
    | some p ↦ if not (is_acceptance executor_id frame p.route) then (false, r) else (
      true,
      resolve p.route.serial (accepted frame)
          (record r { pending = Map.delete command_id r.pending }),
    )
  ]
]

unfoldable pub is_terminal : String → Bool
is_terminal kind =
    str_eq kind "command.result"
    || str_eq kind "error"
    || str_eq kind "events.replay.result"
    || str_eq kind "events.replay.gap"

abbrev pub route_for : OutboundFrame → Relay → Option Route
route_for frame r = elim frame.command_id [
  | some command_id ↦
      if str_eq command_id ""
      then Map.get frame.correlation_id r.by_correlation
      else Map.get command_id r.by_command
  | none ↦ Map.get frame.correlation_id r.by_correlation
]

-- After the write: a link that takes no more is ended, a terminal output ends its route.
unfoldable pub after_write : OutboundFrame → Route → DesktopConnection → Bool × Relay → Bool × Relay
unfolding is_terminal
after_write frame route c (false, r) = (
  false,
  remove_desktop_routes route.device_id (some route.desktop_fence)
      (drop_desktop route.device_id (end_sink c.response r)),
)
after_write frame route c (true, r) =
    (true, (if is_terminal frame.kind then remove_route route none r else r))

-- The output is written on the client's link.
unfoldable pub pass_output : OutboundFrame → Route → DesktopConnection → Relay → Bool × Relay
unfolding write_to after_write
pass_output frame route c r = after_write frame route c (write_to c (OwnerEvent.output frame) r)

unfoldable pub route_output : (executor_id : String) → OutboundFrame → Relay → Bool × Relay
unfolding pass_output
route_output executor_id frame r = elim (route_for frame r) [
  | none ↦ (false, r)
  | some route ↦
      if not (str_eq route.executor_id executor_id)
      then (false, r)
      else elim (Map.get route.device_id r.desktops) [
        | none ↦ (false, remove_route route none r)
        | some c ↦
            if not (str_eq c.fence route.desktop_fence)
            then (false, remove_route route none r)
            else pass_output frame route c r
      ]
]

-- A frame of an executor; its answer says whether the frame was routed.
unfoldable pub receive : (executor_id : String) → OutboundFrame → Relay → Bool × Relay
unfolding accept route_output
receive executor_id frame r =
    if str_eq frame.kind "channel.hello" || str_eq frame.kind "channel.heartbeat"
    then (false, r)
    else if str_eq frame.kind "command.accepted"
    then accept executor_id frame r
    else route_output executor_id frame r
