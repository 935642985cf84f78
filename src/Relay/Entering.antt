-- ===== src/Relay/Entering.antt =====
-- The invariant of the relay where a command enters its route.
use kazibee_home.Prelude.{
  ℕ, String, ◌+◌, ◌≤◌, ◌<◌, str_eq, eq_iff, if◌then◌else◌, false, none, some, [], ◌∷◌, ◌≡◌, arith,
}
use kazibee_home.Prelude.Map
use kazibee_home.Prelude.Map.{Map}
use kazibee_home.Relay.State.{
  Relay, Route, PendingAccept, DesktopConnection, ClientRelayActor, max_routes, max_pending_accepts,
  max_device_in_flight, accept_timeout_ms,
}
use kazibee_home.Relay.Routing.{is_overloaded, device_route_count, route_of, enter_route}
use kazibee_home.Relay.Source.{CommandFrame}
use kazibee_home.Relay.Coherence.{IsCoherent, answered}
use kazibee_home.Relay.Sound.{IsSound}

count-set-le :
    (d k : String) (t : Route) (m : Map Route)
    → device_route_count d (Map.set k t m)
      ≤ device_route_count d m + (if str_eq t.device_id d then 1 else 0)
unfolding device_route_count Map.set
count-set-le d k t [] = ground arith
count-set-le d k t ((j, u) ∷ m) = ground (arith, count-set-le d k t m)

-- What the test for an overload rules out.
pub record IsRoomy (d : String) (t : Route) (r : Relay) : Type 0 where
  pub pending_room : Map.size r.pending < max_pending_accepts
  pub command_room : Map.size r.by_command < max_routes
  pub device_room : device_route_count d r.by_command < max_device_in_flight
  pub new_command : Map.has t.command_id r.by_command ≡ false
  pub new_correlation : Map.has t.correlation_id r.by_correlation ≡ false

pub roomy :
    (a : ClientRelayActor) (f : CommandFrame) (c : DesktopConnection) (r : Relay) (n : ℕ)
    → is_overloaded a.device_id f r ≡ false
    → IsRoomy a.device_id (route_of a f c n) r
unfolding is_overloaded
roomy a f c r n h = ground arith

absent : {V : Type 0} (k : String) (m : Map V) → Map.has k m ≡ false → Map.get k m ≡ none
absent k m h = ground arith

module _ (now : ℕ) (t : Route) (r : Relay) (v : IsSound r) (new : t.serial ≡ r.routed)
    (room : IsRoomy t.device_id t r) where
  enter_commands :
      (k : String) (u : Route)
      → Map.get k (enter_route now t r).by_command ≡ some u
      → (u.command_id ≡ k)
        × (Map.get u.correlation_id (enter_route now t r).by_correlation ≡ some u)
  unfolding enter_route
  enter_commands k u e = ground (
    arith,
    e,
    Map.get-set t.command_id k t r.by_command,
    Map.get-set t.correlation_id u.correlation_id t r.by_correlation,
    v.coherent.commands k u,
    absent t.correlation_id r.by_correlation room.new_correlation,
    eq_iff t.command_id k,
    eq_iff t.correlation_id u.correlation_id,
  )

  enter_correlations :
      (k : String) (u : Route)
      → Map.get k (enter_route now t r).by_correlation ≡ some u
      → (u.correlation_id ≡ k) × (Map.get u.command_id (enter_route now t r).by_command ≡ some u)
  unfolding enter_route
  enter_correlations k u e = ground (
    arith,
    e,
    Map.get-set t.correlation_id k t r.by_correlation,
    Map.get-set t.command_id u.command_id t r.by_command,
    v.coherent.correlations k u,
    absent t.command_id r.by_command room.new_command,
    eq_iff t.correlation_id k,
    eq_iff t.command_id u.command_id,
  )

  enter_waiting :
      (k : String) (p : PendingAccept)
      → Map.get k (enter_route now t r).pending ≡ some p
      → Map.get k (enter_route now t r).by_command ≡ some p.route
  unfolding enter_route
  enter_waiting k p e = ground (
    arith,
    e,
    Map.get-set t.command_id k t r.by_command,
    Map.get-set t.command_id k (record { route = t; timeout = now + accept_timeout_ms }) r.pending,
    v.coherent.waiting k p,
  )

  enter_identity :
      (k j : String) (u w : Route)
      → Map.get k (enter_route now t r).by_command ≡ some u
      → Map.get j (enter_route now t r).by_command ≡ some w
      → u.serial ≡ w.serial
      → k ≡ j
  unfolding enter_route
  enter_identity k j u w e f s = ground (
    arith,
    e,
    f,
    s,
    new,
    Map.get-set t.command_id k t r.by_command,
    Map.get-set t.command_id j t r.by_command,
    v.coherent.identity k j u w,
    v.coherent.numbered k u,
    v.coherent.numbered j w,
    eq_iff t.command_id k,
    eq_iff t.command_id j,
  )

  enter_unanswered :
      (k : String) (p : PendingAccept)
      → Map.get k (enter_route now t r).pending ≡ some p
      → answered p.route.serial r.answers ≡ 0
  unfolding enter_route
  enter_unanswered k p e = ground (
    arith,
    e,
    new,
    Map.get-set t.command_id k (record { route = t; timeout = now + accept_timeout_ms }) r.pending,
    v.coherent.unanswered k p,
    v.coherent.unused t.serial,
  )

  pub enter-IsCoherent : IsCoherent (enter_route now t r)
  unfolding enter_route
  enter-IsCoherent = record {
    commands = enter_commands;
    correlations = enter_correlations;
    waiting = enter_waiting;
    identity = enter_identity;
    numbered = λ k u e.
        ground (arith, e, new, Map.get-set t.command_id k t r.by_command, v.coherent.numbered k u);
    unanswered = enter_unanswered;
    once = v.coherent.once;
    unique = Map.set-IsUnique t.command_id t r.by_command v.coherent.unique;
    unused = λ s h. v.coherent.unused s (omega arith);
  }

  few : (d : String) → device_route_count d (enter_route now t r).by_command ≤ max_device_in_flight
  unfolding enter_route
  few d = ground (
    arith,
    count-set-le d t.command_id t r.by_command,
    v.few_of_device d,
    room.device_room,
    eq_iff t.device_id d,
  )

  pub enter-IsSound : IsSound (enter_route now t r)
  unfolding enter_route
  enter-IsSound = record {
    coherent = enter-IsCoherent;
    few_commands = omega (arith, room.command_room, Map.size-set-le t.command_id t r.by_command);
    few_pending = omega (
      arith,
      room.pending_room,
      Map.size-set-le t.command_id (record { route = t; timeout = now + accept_timeout_ms })
          r.pending,
    );
    few_desktops = v.few_desktops;
    few_of_device = few;
    keyed = v.keyed;
  }

  pub enter-held : Map.get t.command_id (enter_route now t r).by_command ≡ some t
  unfolding enter_route
  enter-held = Map.get-set_same t.command_id t r.by_command
