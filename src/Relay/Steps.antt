-- ===== src/Relay/Steps.antt =====
-- The invariant of the relay under every event: commands, frames, timers and the registry.
use kazibee_home.Prelude.{
  ℕ, String, ◌==◌, Bool, true, false, Option, none, some, List, [], ◌∷◌, ◌≡◌, refl, Bool-cases,
  Option-cases, inl, inr, reverse,
}
use kazibee_home.Prelude.Map
use kazibee_home.Prelude.Map.{Map}
use kazibee_home.Executor.Rows.{ExecutorRow, RepoResult, failed, ok}
use kazibee_home.Registry.{Registry, DispatchResult, dispatch, matches, presence, ExecutorPresence}
use kazibee_home.Registry.Bounds.{Operation, apply}
use kazibee_home.Relay.State.{
  Route, DesktopConnection, ClientRelayActor, executor_offline, backpressure,
}
use kazibee_home.Relay.Hub.{
  Hub, Event, connected, hung_up, desktop_revoked, executor_revoked, command_begun, command_routed,
  frame_received, accept_timer, registry_called, listed, step, run, with_registry, on_relay,
  after_dispatch, dispatch_route, enter_command, match_executor, is_owned, route_command, summarise,
  list_executors, call_registry,
}
use kazibee_home.Relay.Entering.{IsRoomy, roomy, enter-IsSound, enter-held}
use kazibee_home.Relay.Coherence.Operations.{
  then-IsShrunk, IsShrunk-end_sink, IsShrunk-fence_all, IsShrunk-revoke_desktop,
  IsShrunk-revoke_executor,
}
use kazibee_home.Relay.Routing.{is_overloaded, route_of, enter_route}
use kazibee_home.Relay.Source.{CommandFrame}
use kazibee_home.Relay.Coherence.{IsCoherent, IsKnown}
use kazibee_home.Relay.Coherence.Removal.{same_route}
use kazibee_home.Relay.Coherence.Shrinking.{IsShrunk, IsShrunk-refl, IsShrunk-trans, keep-IsKnown}
use kazibee_home.Relay.Sound.{IsSound, shrunk-IsSound, client_events-IsSound, IsShrunk-begin}
use kazibee_home.Relay.Settling.{expire-IsSound, receive-IsSound, refuse-IsSound}

-- A call of the registry only fences executors in the relay.
registry-IsShrunk :
    {A : Type 0} (call : Registry → A × Registry) (h : Hub)
    → IsCoherent h.relay
    → IsShrunk h.relay (with_registry call h).1.relay
unfolding with_registry
registry-IsShrunk call h c =
    IsShrunk-fence_all (reverse (call (record h.registry { disconnected = [] })).1.disconnected) c

after_dispatch-IsSound :
    (t : Route) (p : DispatchResult × Hub)
    → IsKnown t p.1.relay
    → IsSound p.1.relay
    → IsSound (after_dispatch t p).1.relay
unfolding after_dispatch
after_dispatch-IsSound t (DispatchResult.ok, h) known v = v
after_dispatch-IsSound t (DispatchResult.executor_offline, h) known v =
    refuse-IsSound t executor_offline h.relay known v
after_dispatch-IsSound t (DispatchResult.backpressure, h) known v =
    refuse-IsSound t backpressure h.relay known v

dispatch_route-IsSound :
    (now : ℕ) (f : CommandFrame) (t : Route) (h : Hub)
    → t.serial ≡ h.relay.routed
    → IsRoomy t.device_id t h.relay
    → IsSound h.relay
    → IsSound (dispatch_route now f t h).1.relay
unfolding dispatch_route
dispatch_route-IsSound now f t h new room v =
    let entered = enter-IsSound now t h.relay v new room in
    let held = enter-held now t h.relay v new room in
    let known : IsKnown t (enter_route now t h.relay) =
      λ k u e s. same_route _ entered.coherent k t.command_id u t e held s in
    let told =
      registry-IsShrunk (dispatch now f.executor_id f.encoded) (on_relay (enter_route now t) h)
        entered.coherent in
    after_dispatch-IsSound t _ (keep-IsKnown t told known) (shrunk-IsSound entered told)

enter_command-IsSound :
    (now : ℕ) (a : ClientRelayActor) (f : CommandFrame) (d : DesktopConnection) (p : Bool × Hub)
    → IsSound p.1.relay
    → IsSound (enter_command now a f d p).1.relay
unfolding enter_command
enter_command-IsSound now a f d (false, h) v = v
enter_command-IsSound now a f d (true, h) v =
    elim (Bool-cases (is_overloaded a.device_id f h.relay)) [
      | inl e ↦ rw e v
      | inr e ↦ rw e (
          dispatch_route-IsSound now f (route_of a f d h.relay.routed) h refl
            (roomy a f d h.relay h.relay.routed e) v)
    ]

match-IsShrunk :
    (now : ℕ) (owner : Option String) (e : Option ExecutorRow) (h : Hub)
    → IsCoherent h.relay
    → IsShrunk h.relay (match_executor now owner e h).1.relay
unfolding match_executor
match-IsShrunk now owner none h c = IsShrunk-refl c
match-IsShrunk now owner (some e) h c = elim (Bool-cases (is_owned owner (some e))) [
  | inl d ↦
      rw d (registry-IsShrunk (matches now e.executor_id e.device_id e.credential_generation) h c)
  | inr d ↦ rw d (IsShrunk-refl c)
]

route_command-IsSound :
    (now : ℕ) (a : ClientRelayActor) (f : CommandFrame) (d : DesktopConnection)
    (owner : RepoResult (Option String)) (e : RepoResult (Option ExecutorRow)) (h : Hub)
    → IsSound h.relay
    → IsSound (route_command now a f d owner e h).1.relay
unfolding route_command
route_command-IsSound now a f d failed e h v = v
route_command-IsSound now a f d (ok owner) failed h v = v
route_command-IsSound now a f d (ok owner) (ok e) h v =
    elim (Option-cases (Map.get a.device_id h.relay.desktops)) [
      | inl n ↦ rw (n, route_command) v
      | inr (c, n) ↦ elim (Bool-cases (c.link == d.link)) [
        | inr b ↦ rw (n, route_command, b) v
        | inl b ↦
            rw (n, route_command, b)
              (enter_command-IsSound now a f c _
                (shrunk-IsSound v (match-IsShrunk now owner e h v.coherent)))
      ]
    ]

summarise-IsShrunk :
    (now : ℕ) (routed : String → Option ExecutorPresence) (e : ExecutorRow) (h : Hub)
    → IsCoherent h.relay
    → IsShrunk h.relay (summarise now routed e h).1.relay
unfolding summarise
summarise-IsShrunk now routed e h c = elim (Option-cases (routed e.executor_id)) [
  | inl n ↦ rw (n, summarise) (registry-IsShrunk (presence now e.executor_id) h c)
  | inr (p, n) ↦ rw (n, summarise) (IsShrunk-refl c)
]

list-IsShrunk :
    (now : ℕ) (routed : String → Option ExecutorPresence) (es : List ExecutorRow) (h : Hub)
    → IsCoherent h.relay
    → IsShrunk h.relay (list_executors now routed es h).1.relay
unfolding list_executors
list-IsShrunk now routed [] h c = IsShrunk-refl c
list-IsShrunk now routed (e ∷ es) h c =
    then-IsShrunk (summarise-IsShrunk now routed e h c) (list-IsShrunk now routed es _)

step-IsSound : (h : Hub) (e : Event) → IsSound h.relay → IsSound (step h e).relay
unfolding step call_registry
step-IsSound h (connected a fence response) v = client_events-IsSound a fence response h.relay v
step-IsSound h (hung_up response) v = shrunk-IsSound v (IsShrunk-end_sink response v.coherent)
step-IsSound h (desktop_revoked d i) v = shrunk-IsSound v (IsShrunk-revoke_desktop d i v.coherent)
step-IsSound h (executor_revoked e i) v =
    let told = registry-IsShrunk (λ g. (tt, apply (Operation.revoke_op e i) g)) h v.coherent in
    shrunk-IsSound v (IsShrunk-trans told (IsShrunk-revoke_executor e i told.coherent))
step-IsSound h (command_begun now deployment a f) v =
    shrunk-IsSound v (IsShrunk-begin now deployment a f h.relay v.coherent)
step-IsSound h (command_routed now a f d owner e) v = route_command-IsSound now a f d owner e h v
step-IsSound h (frame_received i f) v = receive-IsSound i f h.relay v
step-IsSound h (accept_timer k n) v = expire-IsSound k n h.relay v
step-IsSound h (registry_called o) v =
    shrunk-IsSound v (registry-IsShrunk (λ g. (tt, apply o g)) h v.coherent)
step-IsSound h (listed now routed es) v =
    shrunk-IsSound v (list-IsShrunk now routed es h v.coherent)

pub run-IsSound : (h : Hub) (es : List Event) → IsSound h.relay → IsSound (run h es).relay
unfolding run
run-IsSound h [] v = v
run-IsSound h (e ∷ es) v = run-IsSound (step h e) es (step-IsSound h e v)
