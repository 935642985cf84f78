-- ===== src/Relay/Tests.antt =====
-- A relay at work beside a registry, and what the properties of connect_client_relay_service.ts say of
-- it.
use kazibee_home.Prelude.{
  ℕ, ◌≤◌, true, false, none, some, List, [], ◌∷◌, ◌≡◌, refl, str_eq, String, arith,
}
use kazibee_home.Prelude.Map
use kazibee_home.Json.{obj, str, end}
use kazibee_home.Sse.{Sink, writable_ended, write}
use kazibee_home.Executor.Rows.{ExecutorRow, active, ok}
use kazibee_home.Registry.{
  empty, open_connection, prune_hellos, prune_tombstones, matches, presence, dispatch, deliver,
  write_to,
}
use kazibee_home.Registry.Streams.{Stream}
use kazibee_home.Registry.Bounds.{open_op, apply}
use kazibee_home.Relay.State.{
  Relay, Route, PendingAccept, DesktopConnection, ClientRelayActor, desktop_relay, executor_relay,
  Authority, OutboundFrame, OwnerEvent, fresh,
}
use kazibee_home.Relay.Links.{
  client_events, close, is_admitted_by, revoke_executor, on_close, open_link, is_refused, admit,
  make_room, replace_link,
}
use kazibee_home.Relay.State.{is_desktop_route, conflicts, same_authority, relay_authority}
use kazibee_home.Relay.Routing.{
  device_route_count, expire, route_output, begin_command, admit_command, is_admitted, after_rate,
  take_rate, is_terminal, is_overloaded, enter_route,
}
use kazibee_home.Relay.Source.{CommandFrame, nested_target_fence, is_threaded}
use kazibee_home.Relay.Hub.{
  Event, connected, command_begun, command_routed, registry_called, run, route_command,
  call_registry, with_registry, fence_all, match_executor, is_owned, enter_command, dispatch_route,
  after_dispatch,
}
use kazibee_home.Relay.Coherence.{answered}
use kazibee_home.Relay.Promises.{
  start, promises_answered_once, indexes_agree, relay_in_bounds, accept_timer_settles, EndsEarly,
  early_output_leaves_no_answer,
}
use kazibee_home.Relay.Revocation.{close_clears_its_routes, revoked_executor_has_nothing}
use kazibee_home.Relay.Admission.{
  refused_client_changes_nothing, IsQuiet, window_lets_120_through, let_through, at_most,
}

abbrev sinks : List (Sink OwnerEvent)
sinks =
    record { handle = 0; ended = false; chunks = [] }
    ∷ record { handle = 1; ended = false; chunks = [] }
    ∷ []

abbrev streams : List Stream
streams = record { handle = 7; ended = false; chunks = [] } ∷ []

abbrev actor : ClientRelayActor
actor = record {
  device_id = "dev_1";
  generation = 1;
  owner_user_id = "usr_1";
  audience = desktop_relay;
}

-- The same device, by the credential of an executor.
abbrev other_actor : ClientRelayActor
other_actor = record actor { audience = executor_relay "exe_9" }

abbrev command : CommandFrame
command = record {
  command_id = "cmd_1";
  correlation_id = "cor_1";
  idempotency_key = "idem_1";
  website_deployment_id = "wdp_1";
  executor_id = "exe_1";
  device_id = "dev_1";
  actor_role = "desktop_device";
  operation = "threads.read";
  payload = obj end;
  encoded = str "command";
}

abbrev executor_row : ExecutorRow
executor_row = record {
  executor_id = "exe_1";
  device_id = "dev_7";
  owner_user_id = some "usr_1";
  display_name = "Mac";
  platform = "macos";
  architecture = "arm64";
  executor_version = "1.0.0";
  key_fingerprint = "k";
  state = active;
  credential_generation = 1;
  created_at = 0;
  claimed_at = some 0;
  updated_at = 0;
  last_seen_at = 0;
}

abbrev link : DesktopConnection
link = record {
  link = 0;
  fence = "f_1";
  device_id = "dev_1";
  generation = 1;
  authority = Authority.desktop "dev_1" 1;
  response = 0;
}

abbrev events : List Event
events =
    registry_called (open_op 100 "g_1" "exe_1" "dev_7" 1 7)
    ∷ connected actor "f_1" 0
    ∷ command_begun 150 (some "wdp_1") actor command
    ∷ command_routed 200 actor command link (ok (some "usr_1")) (ok (some executor_row))
    ∷ []

abbrev waiting_route : Route
waiting_route = record {
  serial = 0;
  command_id = "cmd_1";
  correlation_id = "cor_1";
  idempotency_key = "idem_1";
  executor_id = "exe_1";
  device_id = "dev_1";
  desktop_fence = "f_1";
  authority = Authority.desktop "dev_1" 1;
}

abbrev promise : PendingAccept
promise = record { route = waiting_route; timeout = 5200 }

abbrev reached_relay : Relay
reached_relay = (run (start sinks (empty streams)) events).relay

-- The command waits to be accepted, on a link that takes events.
command_waits :
    (Map.get "cmd_1" reached_relay.pending ≡ some promise)
    × (Map.get "dev_1" reached_relay.desktops ≡ some link)
    × (writable_ended 0 reached_relay.sinks ≡ false)
unfolding run empty Map.get Map.set Map.delete route_command begin_command nested_target_fence
    client_events on_close writable_ended open_link is_refused call_registry apply open_connection
    prune_hellos prune_tombstones fresh admit make_room replace_link with_registry fence_all
    admit_command is_admitted after_rate take_rate same_authority relay_authority is_threaded
    match_executor is_owned matches presence enter_command is_overloaded device_route_count
    dispatch_route enter_route dispatch deliver write_to write after_dispatch
command_waits = (refl, refl, refl)

promises_answered_once_example :
    ((n : ℕ) → answered n reached_relay.answers ≤ 1)
    × ((k : String) (p : PendingAccept)
        → Map.get k reached_relay.pending ≡ some p
        → answered p.route.serial reached_relay.answers ≡ 0)
    × ((n : ℕ) → reached_relay.routed ≤ n → answered n reached_relay.answers ≡ 0)
    × ((k j : String) (p q : PendingAccept)
        → Map.get k reached_relay.pending ≡ some p
        → Map.get j reached_relay.pending ≡ some q
        → p.route.serial ≡ q.route.serial
        → k ≡ j)
promises_answered_once_example = promises_answered_once sinks (empty streams) events

indexes_agree_example :
    ((k : String) (t : Route)
      → Map.get k reached_relay.by_command ≡ some t
      → (t.command_id ≡ k) × (Map.get t.correlation_id reached_relay.by_correlation ≡ some t))
    × ((k : String) (t : Route)
        → Map.get k reached_relay.by_correlation ≡ some t
        → (t.correlation_id ≡ k) × (Map.get t.command_id reached_relay.by_command ≡ some t))
    × ((k : String) (p : PendingAccept)
        → Map.get k reached_relay.pending ≡ some p
        → Map.get k reached_relay.by_command ≡ some p.route)
indexes_agree_example = indexes_agree sinks (empty streams) events

relay_in_bounds_example :
    (Map.size reached_relay.by_command ≤ 1024)
    × (Map.size reached_relay.pending ≤ 256)
    × (Map.size reached_relay.desktops ≤ 256)
    × ((d : String) → device_route_count d reached_relay.by_command ≤ 32)
relay_in_bounds_example = relay_in_bounds sinks (empty streams) events

accept_timer_settles_example :
    (answered 0 (expire "cmd_1" 0 reached_relay).answers ≡ 1)
    × (Map.get "cmd_1" (expire "cmd_1" 0 reached_relay).pending ≡ none)
    × (Map.get "cmd_1" (expire "cmd_1" 0 reached_relay).by_command ≡ none)
    × (Map.get "cor_1" (expire "cmd_1" 0 reached_relay).by_correlation ≡ none)
accept_timer_settles_example =
    accept_timer_settles sinks (empty streams) events "cmd_1" promise command_waits.0

-- The executor reports an error for the command, and has not accepted it.
abbrev early_error : OutboundFrame
early_error = record {
  kind = "error";
  correlation_id = "cor_1";
  command_id = some "cmd_1";
  idempotency_key = none;
  body = str "error";
}

early_error-EndsEarly : EndsEarly reached_relay "cmd_1" promise "exe_1" early_error link
unfolding is_terminal
early_error-EndsEarly = record {
  waits = command_waits.0;
  command = refl;
  named = refl;
  terminal = refl;
  of_executor = refl;
  linked = command_waits.1;
  same_fence = refl;
  is_live = command_waits.2;
}

early_output_leaves_no_answer_example :
    (Map.get "cmd_1" (route_output "exe_1" early_error reached_relay).1.pending ≡ none)
    × (answered 0 (route_output "exe_1" early_error reached_relay).1.answers ≡ 0)
    × ((n : ℕ)
        → expire "cmd_1" n (route_output "exe_1" early_error reached_relay).1
          ≡ (route_output "exe_1" early_error reached_relay).1)
early_output_leaves_no_answer_example =
    early_output_leaves_no_answer sinks (empty streams) events "cmd_1" promise "exe_1" early_error
      link early_error-EndsEarly

close_clears_its_routes_example :
    (Map.get "dev_1" (close "dev_1" "f_1" reached_relay).desktops ≡ none)
    × ((k : String) (u : Route)
        → Map.get k (close "dev_1" "f_1" reached_relay).by_command ≡ some u
        → is_desktop_route "dev_1" (some "f_1") u ≡ false)
close_clears_its_routes_example =
    close_clears_its_routes sinks (empty streams) events "dev_1" link command_waits.1

revoked_executor_has_nothing_example :
    ((k : String) (d : DesktopConnection)
      → Map.get k (revoke_executor "exe_1" "cor_2" reached_relay).desktops ≡ some d
      → is_admitted_by "exe_1" d.authority ≡ false)
    × ((k : String) (t : Route)
        → Map.get k (revoke_executor "exe_1" "cor_2" reached_relay).by_command ≡ some t
        → str_eq t.executor_id "exe_1" ≡ false)
revoked_executor_has_nothing_example =
    revoked_executor_has_nothing sinks (empty streams) events "exe_1" "cor_2"

abbrev linked_relay : Relay
linked_relay = record {
  desktops = ("dev_1", link) ∷ [];
  by_command = [];
  by_correlation = [];
  pending = [];
  rates = [];
  sinks = sinks;
  callbacks = record { handle = 0; device_id = "dev_1"; fence = "f_1" } ∷ [];
  links = 1;
  routed = 0;
  answers = [];
}

refused_client_changes_nothing_example :
    IsQuiet linked_relay (client_events other_actor "f_2" 1 linked_relay)
    × (writable_ended 1 (client_events other_actor "f_2" 1 linked_relay).sinks ≡ true)
unfolding is_refused relay_authority conflicts Map.get
refused_client_changes_nothing_example =
    refused_client_changes_nothing other_actor "f_2" 1 link linked_relay refl refl refl refl

window_lets_120_through_example :
    let_through "dev_1" (1000 ∷ 1200 ∷ 60999 ∷ []) linked_relay ≡ at_most 3 120
unfolding Map.get
window_lets_120_through_example =
    window_lets_120_through "dev_1" 1000 (1200 ∷ 60999 ∷ []) linked_relay refl (omega arith)
