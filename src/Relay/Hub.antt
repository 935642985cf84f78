-- ===== src/Relay/Hub.antt =====
-- The relay of src/server/services/connect_client_relay_service.ts together with the registry of the
-- executors' connections: the end of `command`, `listExecutors`, and what can happen to the two.
-- The relay listens to the registry: an executor that disconnects inside a call of the registry is
-- fenced in the relay by the end of that call.
use kazibee_home.Prelude.{
  ℕ, String, ◌==◌, str_eq, if◌then◌else◌, Bool, true, false, not, ◌&&◌, Option, none, some, List,
  [], ◌∷◌, ◌++◌, reverse,
}
use kazibee_home.Prelude.Map
use kazibee_home.Executor.Rows.{ExecutorRow, ExecutorState, is_active, RepoResult, failed, ok}
use kazibee_home.Registry.{
  Registry, DispatchResult, dispatch, matches, presence, ExecutorPresence, is_online,
}
use kazibee_home.Registry.Bounds.{Operation, apply}
use kazibee_home.Relay.State.{
  Relay, Route, DesktopConnection, ClientRelayActor, OutboundFrame, Outcome, executor_offline,
  backpressure, unauthorized, overloaded, fence_executor,
}
use kazibee_home.Relay.Links.{client_events, end_sink, revoke_desktop, revoke_executor}
use kazibee_home.Relay.Routing.{
  begin_command, is_overloaded, route_of, enter_route, refuse_route, expire, receive,
}
use kazibee_home.Relay.Source.{CommandFrame}

pub record Hub : Type 0 where
  pub relay : Relay
  pub registry : Registry

unfoldable pub fence_all : List String → Relay → Relay
fence_all [] r = r
fence_all (executor_id ∷ executor_ids) r = fence_all executor_ids (fence_executor executor_id r)

-- A call of the registry: the relay is told of the executors that it disconnected.
unfoldable pub with_registry : {A : Type 0} → (Registry → A × Registry) → Hub → A × Hub
unfolding fence_all
with_registry call h =
    let (a, g) = call (record h.registry { disconnected = [] }) in
    (
      a,
      record {
        relay = fence_all (reverse g.disconnected) h.relay;
        registry = record g { disconnected = g.disconnected ++ h.registry.disconnected };
      },
    )

abbrev pub on_relay : (Relay → Relay) → Hub → Hub
on_relay f h = record h { relay = f h.relay }

-- How `command` ends: with an answer, or with the promise of a route.
pub data Routed : Type 0 where
  refused : Outcome → Routed
  waits : (serial : ℕ) → Routed

-- Whether the row is an active executor of this owner; an empty owner counts as none.
unfoldable pub is_owned : Option String → Option ExecutorRow → Bool
is_owned none row = false
is_owned (some owner) none = false
is_owned (some owner) (some e) =
    not (str_eq owner "") && is_active e.state && owns owner e.owner_user_id
  where
    owns : String → Option String → Bool
    owns owner none = false
    owns owner (some o) = str_eq o owner

-- A dispatch that failed answers the command, unless its route is gone already.
unfoldable pub after_dispatch : Route → DispatchResult × Hub → Routed × Hub
after_dispatch route (DispatchResult.ok, h) = (waits route.serial, h)
after_dispatch route (DispatchResult.executor_offline, h) =
    (waits route.serial, on_relay (refuse_route route executor_offline) h)
after_dispatch route (DispatchResult.backpressure, h) =
    (waits route.serial, on_relay (refuse_route route backpressure) h)

-- The command is dispatched to its executor, once the route is entered.
unfoldable pub dispatch_route : ℕ → CommandFrame → Route → Hub → Routed × Hub
unfolding with_registry after_dispatch
dispatch_route now frame route h = after_dispatch route (
    with_registry (dispatch now frame.executor_id frame.encoded)
      (on_relay (enter_route now route) h))

unfoldable pub enter_command :
    ℕ → ClientRelayActor → CommandFrame → DesktopConnection → Bool × Hub → Routed × Hub
unfolding dispatch_route
enter_command now actor frame c (false, h) = (refused executor_offline, h)
enter_command now actor frame c (true, h) =
    if is_overloaded actor.device_id frame h.relay
    then (refused overloaded, h)
    else dispatch_route now frame (route_of actor frame c h.relay.routed) h

-- `matches` of the registry is asked only for an executor that the owner may use.
unfoldable pub match_executor :
    ℕ → (owner : Option String) → (executor : Option ExecutorRow) → Hub → Bool × Hub
unfolding with_registry is_owned
match_executor now owner none h = (false, h)
match_executor now owner (some e) h =
    if is_owned owner (some e)
    then with_registry (matches now e.executor_id e.device_id e.credential_generation) h
    else (false, h)

-- `command` from its second wait on, with the link that it found before.
unfoldable pub route_command :
    ℕ
    → ClientRelayActor
    → CommandFrame
    → DesktopConnection
    → (owner : RepoResult (Option String)) → (executor : RepoResult (Option ExecutorRow)) → Hub
    → Routed × Hub
unfolding match_executor enter_command
route_command now actor frame c failed executor h = (refused executor_offline, h)
route_command now actor frame c (ok owner) failed h = (refused executor_offline, h)
route_command now actor frame c (ok owner) (ok executor) h =
    elim (Map.get actor.device_id h.relay.desktops) [
      | none ↦ (refused unauthorized, h)
      | some current ↦
          if not (current.link == c.link)
          then (refused unauthorized, h)
          else enter_command now actor frame current (match_executor now owner executor h)
    ]

pub record ExecutorSummary : Type 0 where
  pub executor_id : String
  pub display_name : String
  pub state : ExecutorState
  pub online : Bool
  pub presence : ExecutorPresence

-- The presence is the coordinator's, where there is one (`routed`), else the registry's.
unfoldable pub summarise :
    ℕ → (routed : String → Option ExecutorPresence) → ExecutorRow → Hub → ExecutorSummary × Hub
unfolding with_registry
summarise now routed e h = elim (routed e.executor_id) [
  | some p ↦ (summary p, h)
  | none ↦ (let (p, h') = with_registry (presence now e.executor_id) h in (summary p, h'))
]
  where
    summary : ExecutorPresence → ExecutorSummary
    summary p = record {
      executor_id = e.executor_id;
      display_name = e.display_name;
      state = e.state;
      online = is_online p;
      presence = p;
    }

-- `listExecutors` over the rows of the owner.
unfoldable pub list_executors :
    ℕ
    → (routed : String → Option ExecutorPresence) → List ExecutorRow
    → Hub
    → List ExecutorSummary × Hub
unfolding summarise
list_executors now routed [] h = ([], h)
list_executors now routed (e ∷ es) h =
    let (summary, h') = summarise now routed e h in
    let (summaries, h'') = list_executors now routed es h' in (summary ∷ summaries, h'')

-- What can happen, in any order. The end of `command` may be taken with any link and any rows.
pub data Event : Type 0 where
  connected : ClientRelayActor → (fence : String) (response : ℕ) → Event
  hung_up : (response : ℕ) → Event
  desktop_revoked : (device_id correlation_id : String) → Event
  executor_revoked : (executor_id correlation_id : String) → Event
  command_begun : ℕ → (deployment : Option String) → ClientRelayActor → CommandFrame → Event
  command_routed :
      ℕ
      → ClientRelayActor
      → CommandFrame
      → DesktopConnection
      → (owner : RepoResult (Option String)) → (executor : RepoResult (Option ExecutorRow)) → Event
  frame_received : (executor_id : String) → OutboundFrame → Event
  accept_timer : (command_id : String) (serial : ℕ) → Event
  registry_called : Operation → Event
  listed : ℕ → (routed : String → Option ExecutorPresence) → List ExecutorRow → Event

-- A call of the registry by another part of the server.
unfoldable pub call_registry : Operation → Hub → Hub
unfolding with_registry
call_registry o h = (with_registry (λ g. (tt, apply o g)) h).1

unfoldable pub step : Hub → Event → Hub
step h (connected actor fence response) = on_relay (client_events actor fence response) h
step h (hung_up response) = on_relay (end_sink response) h
step h (desktop_revoked device_id i) = on_relay (revoke_desktop device_id i) h
step h (executor_revoked executor_id i) =
    on_relay (revoke_executor executor_id i) (call_registry (Operation.revoke_op executor_id i) h)
step h (command_begun now deployment actor frame) =
    on_relay (λ r. (begin_command now deployment actor frame r).1) h
step h (command_routed now actor frame c owner executor) =
    (route_command now actor frame c owner executor h).1
step h (frame_received executor_id frame) = on_relay (λ r. (receive executor_id frame r).1) h
step h (accept_timer command_id serial) = on_relay (expire command_id serial) h
step h (registry_called o) = call_registry o h
step h (listed now routed es) = (list_executors now routed es h).1

unfoldable pub run : Hub → List Event → Hub
unfolding step
run h [] = h
run h (e ∷ es) = run (step h e) es
