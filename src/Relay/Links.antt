-- ===== src/Relay/Links.antt =====
-- The links of src/server/services/connect_client_relay_service.ts: open, close and the two
-- revocations, with `events` of controller/connect_client_relay.controller.ts, which closes the link
-- when its sink closes. Ending a sink runs that callback at once, inside the operation that ends it.
use kazibee_home.Prelude.{
  ℕ, String, ◌+◌, ◌==◌, ltb, str_eq, if◌then◌else◌, Bool, false, not, Option, none, some, List, [],
  ◌∷◌, ◌++◌,
}
use kazibee_home.Prelude.Map
use kazibee_home.Prelude.Map.{Map}
use kazibee_home.Sse.{end_stream, writable_ended}
use kazibee_home.Relay.State.{
  Relay, DesktopConnection, CloseCallback, ClientRelayActor, Authority, desktop, executor,
  relay_authority, conflicts, write_to, remove_desktop_routes, fence_executor, safe_error,
  max_connections,
}

unfoldable pub close : (device_id fence : String) → Relay → Relay
close device_id fence r = elim (Map.get device_id r.desktops) [
  | none ↦ r
  | some current ↦
      if not (str_eq current.fence fence)
      then r
      else remove_desktop_routes device_id (some fence) (record r {
        desktops = Map.delete device_id r.desktops;
        rates = Map.delete device_id r.rates;
      })
]

-- The callbacks of one sink, in the order in which they were added.
unfoldable pub run_callbacks : ℕ → List CloseCallback → Relay → Relay
run_callbacks handle [] r = r
run_callbacks handle (b ∷ bs) r =
    run_callbacks handle bs (if b.handle == handle then close b.device_id b.fence r else r)

unfoldable pub forget_callbacks : ℕ → List CloseCallback → List CloseCallback
forget_callbacks handle [] = []
forget_callbacks handle (b ∷ bs) =
    let rest = forget_callbacks handle bs in if b.handle == handle then rest else b ∷ rest

-- `notifyClose` of a sink, by its `end` or because the client hung up.
unfoldable pub end_sink : ℕ → Relay → Relay
end_sink handle r =
    if writable_ended handle r.sinks
    then r
    else (let r' =
          run_callbacks handle r.callbacks (record r { sinks = end_stream handle r.sinks }) in
        record r' { callbacks = forget_callbacks handle r'.callbacks })

-- `onClose` of a sink.
unfoldable pub on_close : CloseCallback → Relay → Relay
on_close b r =
    if writable_ended b.handle r.sinks
    then close b.device_id b.fence r
    else record r { callbacks = r.callbacks ++ b ∷ [] }

abbrev pub drop_desktop : String → Relay → Relay
drop_desktop device_id r = record r { desktops = Map.delete device_id r.desktops }

-- `while (this.desktops.size >= MAX_CONNECTIONS)`: the oldest links are closed. Each round takes one
-- away, so that a round for each link is enough.
unfoldable pub make_room : ℕ → Relay → Relay
make_room ℕ.zero r = r
make_room (ℕ.suc rounds) r =
    if ltb (Map.size r.desktops) max_connections then r else elim r.desktops [
      | [] ↦ r
      | (k, oldest) ∷ m ↦
          make_room rounds (end_sink oldest.response (close oldest.device_id oldest.fence r))
    ]

abbrev pub connection_of :
    ClientRelayActor → (fence : String) (response link : ℕ) → DesktopConnection
connection_of actor fence response link = record {
  link = link;
  fence = fence;
  device_id = actor.device_id;
  generation = actor.generation;
  authority = relay_authority actor;
  response = response;
}

-- The link of another credential authority is kept, and the newcomer refused.
unfoldable pub refuse : ClientRelayActor → ℕ → Relay → Relay
unfolding write_to
refuse actor response r =
    end_sink response
      (write_to (connection_of actor "" response r.links)
        (safe_error "revoked" "Desktop channel authority mismatch" "cor_authorityclash") r).1

-- The earlier link of the device is told, ended and forgotten.
unfoldable pub replace_link : (device_id : String) → Option DesktopConnection → Relay → Relay
unfolding write_to
replace_link device_id none r = r
replace_link device_id (some previous) r = drop_desktop device_id (
    remove_desktop_routes device_id (some previous.fence) (
      end_sink previous.response
        (write_to previous
          (safe_error "revoked" "Desktop channel was replaced" "cor_channeltakeover") r).1))

unfoldable pub admit : ClientRelayActor → (fence : String) (response : ℕ) → Relay → Relay
admit actor fence response r =
    let r' = make_room (Map.size r.desktops) r in
    record r' {
      desktops = Map.set actor.device_id (connection_of actor fence response r'.links) r'.desktops;
      links = r'.links + 1;
    }

-- Whether the device has a link that the actor's authority may not take over.
unfoldable pub is_refused : ClientRelayActor → Relay → Bool
unfolding conflicts relay_authority
is_refused actor r = elim (Map.get actor.device_id r.desktops) [
  | none ↦ false
  | some previous ↦ conflicts previous.authority (relay_authority actor)
]

-- `open`; its answer is the fence, also where the newcomer is refused.
unfoldable pub open_link : ClientRelayActor → (fence : String) (response : ℕ) → Relay → Relay
open_link actor fence response r =
    if is_refused actor r
    then refuse actor response r
    else admit actor fence response
        (replace_link actor.device_id (Map.get actor.device_id r.desktops) r)

-- `events` of the controller: the link is opened and is closed with its sink.
unfoldable pub client_events : ClientRelayActor → (fence : String) (response : ℕ) → Relay → Relay
client_events actor fence response r =
    on_close (record { handle = response; device_id = actor.device_id; fence = fence })
      (open_link actor fence response r)

unfoldable pub revoke_desktop : (device_id correlation_id : String) → Relay → Relay
unfolding write_to
revoke_desktop device_id correlation_id r = elim (Map.get device_id r.desktops) [
  | none ↦ forget_rate (remove_desktop_routes device_id none r)
  | some current ↦ forget_rate (
      remove_desktop_routes device_id (some current.fence) (
        drop_desktop device_id (
          end_sink current.response
            (write_to current (safe_error "revoked" "Desktop credential was revoked" correlation_id)
              r).1)))
]
  where
    forget_rate : Relay → Relay
    forget_rate r' = record r' { rates = Map.delete device_id r'.rates }

-- `connection.authority.kind === "executor" && connection.authority.executorId === executorId`
unfoldable pub is_admitted_by : String → Authority → Bool
is_admitted_by executor_id (desktop d g) = false
is_admitted_by executor_id (executor e d g) = str_eq e executor_id

unfoldable pub revoke_link : (correlation_id : String) → DesktopConnection → Relay → Relay
unfolding write_to
revoke_link correlation_id c r =
    let r' =
      end_sink c.response
        (write_to c (safe_error "revoked" "Executor credential was revoked" correlation_id) r).1 in
    remove_desktop_routes c.device_id (some c.fence) (record r' {
      desktops = Map.delete c.device_id r'.desktops;
      rates = Map.delete c.device_id r'.rates;
    })

unfoldable pub revoke_links :
    (executor_id correlation_id : String) → List DesktopConnection → Relay → Relay
unfolding is_admitted_by
revoke_links executor_id correlation_id [] r = r
revoke_links executor_id correlation_id (c ∷ cs) r =
    revoke_links executor_id correlation_id cs
      (if is_admitted_by executor_id c.authority then revoke_link correlation_id c r else r)

unfoldable pub revoke_executor : (executor_id correlation_id : String) → Relay → Relay
revoke_executor executor_id correlation_id r =
    fence_executor executor_id (revoke_links executor_id correlation_id (Map.values r.desktops) r)
