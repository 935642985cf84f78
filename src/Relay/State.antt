-- ===== src/Relay/State.antt =====
-- The state of src/server/services/connect_client_relay_service.ts: open links of desktop clients,
-- routes under way, and the promises of commands that wait to be accepted.
use kazibee_home.Prelude.{
  ℕ, String, ◌==◌, str_eq, if◌then◌else◌, Bool, true, false, not, ◌&&◌, ◌||◌, Option, none, some,
  List, [], ◌∷◌,
}
use kazibee_home.Prelude.Map
use kazibee_home.Prelude.Map.{Map}
use kazibee_home.Json.{Json}
use kazibee_home.Sse.{Sink, write, writable_ended}

abbrev pub accept_timeout_ms : ℕ
accept_timeout_ms = 5000

abbrev pub max_connections : ℕ
max_connections = 256

abbrev pub max_routes : ℕ
max_routes = 1024

abbrev pub max_pending_accepts : ℕ
max_pending_accepts = 256

abbrev pub max_device_in_flight : ℕ
max_device_in_flight = 32

abbrev pub rate_window_ms : ℕ
rate_window_ms = 60000

abbrev pub max_commands_per_window : ℕ
max_commands_per_window = 120

-- The audience of a client's credential; the executor's carries its id.
pub data Audience : Type 0 where
  desktop_relay : Audience
  executor_relay : String → Audience

pub record ClientRelayActor : Type 0 where
  pub device_id : String
  pub generation : ℕ
  pub owner_user_id : String
  pub audience : Audience

-- Which credential store vouches for a link.
pub data Authority : Type 0 where
  desktop : (device_id : String) (generation : ℕ) → Authority
  executor : (executor_id device_id : String) (generation : ℕ) → Authority

unfoldable pub relay_authority : ClientRelayActor → Authority
relay_authority actor = elim actor.audience [
  | executor_relay executor_id ↦ executor executor_id actor.device_id actor.generation
  | desktop_relay ↦ desktop actor.device_id actor.generation
]

unfoldable pub same_authority : Authority → Authority → Bool
same_authority (desktop d g) (desktop d' g') = str_eq d d' && g == g'
same_authority (executor e d g) (executor e' d' g') = str_eq d d' && g == g' && str_eq e e'
same_authority (desktop d g) (executor e' d' g') = false
same_authority (executor e d g) (desktop d' g') = false

unfoldable pub conflicts : Authority → Authority → Bool
conflicts (desktop d g) (desktop d' g') = false
conflicts (executor e d g) (executor e' d' g') = not (str_eq e e')
conflicts (desktop d g) (executor e' d' g') = true
conflicts (executor e d g) (desktop d' g') = true

-- `link` is the identity of the object, which `===` compares; `response` the handle of its sink.
pub record DesktopConnection : Type 0 where
  pub link : ℕ
  pub fence : String
  pub device_id : String
  pub generation : ℕ
  pub authority : Authority
  pub response : ℕ

-- `serial` is the identity of the object, and of the promise that the command waits for.
pub record Route : Type 0 where
  pub serial : ℕ
  pub command_id : String
  pub correlation_id : String
  pub idempotency_key : String
  pub executor_id : String
  pub device_id : String
  pub desktop_fence : String
  pub authority : Authority

-- The time-out is the time at which it is due.
pub record PendingAccept : Type 0 where
  pub route : Route
  pub timeout : ℕ

pub record Rate : Type 0 where
  pub window_started_ms : ℕ
  pub count : ℕ

-- A frame of an executor, as the schema leaves it; `body` is the whole of it.
pub record OutboundFrame : Type 0 where
  pub kind : String
  pub correlation_id : String
  pub command_id : Option String
  pub idempotency_key : Option String
  pub body : Json

-- The events that a client is sent: a safe error, or the frame of an executor.
pub data OwnerEvent : Type 0 where
  safe_error : (code message correlation_id : String) → OwnerEvent
  output : OutboundFrame → OwnerEvent

pub data Outcome : Type 0 where
  accepted : OutboundFrame → Outcome
  executor_offline backpressure accept_timeout unauthorized overloaded : Outcome
  website_deployment_mismatch invalid_envelope unavailable : Outcome

-- A callback of `onClose`: `close(deviceId, fence)` where the sink with this handle closes.
pub record CloseCallback : Type 0 where
  pub handle : ℕ
  pub device_id : String
  pub fence : String

-- `callbacks` are those of the sinks. `links` and `routed` count the connections and the routes that were made; `answers` has what
-- each promise was resolved with, newest first.
pub record Relay : Type 0 where
  pub desktops : Map DesktopConnection
  pub by_command : Map Route
  pub by_correlation : Map Route
  pub pending : Map PendingAccept
  pub rates : Map Rate
  pub sinks : List (Sink OwnerEvent)
  pub callbacks : List CloseCallback
  pub links : ℕ
  pub routed : ℕ
  pub answers : List (ℕ × Outcome)

unfoldable pub fresh : List (Sink OwnerEvent) → Relay
fresh sinks = record {
  desktops = [];
  by_command = [];
  by_correlation = [];
  pending = [];
  rates = [];
  sinks = sinks;
  callbacks = [];
  links = 0;
  routed = 0;
  answers = [];
}

-- `write`: whether the sink took the event, and the relay after it.
unfoldable pub write_to : DesktopConnection → OwnerEvent → Relay → Bool × Relay
write_to c event r =
    if writable_ended c.response r.sinks
    then (false, r)
    else (let (taken, sinks) = write c.response event r.sinks in
        (taken, record r { sinks = sinks }))

-- `resolve` of a promise.
abbrev pub resolve : ℕ → Outcome → Relay → Relay
resolve ticket outcome r = record r { answers = (ticket, outcome) ∷ r.answers }

abbrev pub resolve_with : ℕ → Option Outcome → Relay → Relay
resolve_with ticket none r = r
resolve_with ticket (some outcome) r = resolve ticket outcome r

-- Whether a table holds this very route under the key.
abbrev pub is_route : Route → Option Route → Bool
is_route route none = false
is_route route (some found) = found.serial == route.serial

abbrev pub is_pending_of : Route → Option PendingAccept → Bool
is_pending_of route none = false
is_pending_of route (some found) = found.route.serial == route.serial

-- The two indexes of `removeRoute`, and then the promise.
unfoldable pub unindex : Route → Relay → Relay
unindex route r =
    let r' : Relay =
      if is_route route (Map.get route.command_id r.by_command)
      then record r { by_command = Map.delete route.command_id r.by_command }
      else r in
    if is_route route (Map.get route.correlation_id r'.by_correlation)
    then record r' { by_correlation = Map.delete route.correlation_id r'.by_correlation }
    else r'

unfoldable pub remove_route : Route → Option Outcome → Relay → Relay
unfolding unindex
remove_route route result r =
    let r' = unindex route r in
    if is_pending_of route (Map.get route.command_id r'.pending)
    then resolve_with route.serial result
        (record r' { pending = Map.delete route.command_id r'.pending })
    else r'

-- `for (const route of [...this.byCommand.values()])`: over the routes as they were.
unfoldable pub for_routes : (Route → Relay → Relay) → List Route → Relay → Relay
for_routes body [] r = r
for_routes body (route ∷ routes) r = for_routes body routes (body route r)

-- `route.deviceId === deviceId && (!fence || route.desktopFence === fence)`
unfoldable pub is_desktop_route : String → Option String → Route → Bool
is_desktop_route device_id none route = str_eq route.device_id device_id
is_desktop_route device_id (some fence) route =
    str_eq route.device_id device_id && (str_eq fence "" || str_eq route.desktop_fence fence)

unfoldable pub remove_desktop_routes : String → Option String → Relay → Relay
remove_desktop_routes device_id fence r =
    for_routes
      (λ route r'.
        if is_desktop_route device_id fence route
        then remove_route route (some unauthorized) r'
        else r')
      (Map.values r.by_command) r

unfoldable pub fence_route : Route → Relay → Relay
unfolding write_to
fence_route route r = elim (Map.get route.device_id r.desktops) [
  | none ↦ remove_route route (some executor_offline) r
  | some c ↦
      if str_eq c.fence route.desktop_fence
      then remove_route route (some executor_offline)
          (write_to c (safe_error "executor-offline" "Executor is offline" route.correlation_id)
            r).1
      else remove_route route (some executor_offline) r
]

unfoldable pub fence_executor : String → Relay → Relay
fence_executor executor_id r =
    for_routes
      (λ route r'. if not (str_eq route.executor_id executor_id) then r' else fence_route route r')
      (Map.values r.by_command) r
