-- ===== src/Relay/Promises.antt =====
-- The promises of commands, the indexes of routes and their bounds, over whole runs of the relay.
use kazibee_home.Prelude.{
  ℕ, String, ◌≤◌, str_eq, true, false, none, some, List, [], ◌∷◌, ◌≡◌, ◌∙◌, refl, ap, sym, arith,
  subst, ==_refl,
}
use kazibee_home.Prelude.Map
use kazibee_home.Sse.{Sink, writable_ended, write}
use kazibee_home.Registry.{Registry}
use kazibee_home.Relay.State.{
  Relay, Route, PendingAccept, DesktopConnection, OutboundFrame, OwnerEvent, fresh, accept_timeout,
  remove_route, resolve, write_to,
}
use kazibee_home.Relay.Routing.{
  device_route_count, expire, route_output, pass_output, after_write, is_terminal, route_for,
}
use kazibee_home.Relay.Hub.{Hub, Event, run}
use kazibee_home.Relay.Coherence.{
  IsCoherent, answered, drop_route, drop_tables, remove_route-held, keep_quiet,
}
use kazibee_home.Relay.Coherence.Removal.{same_route}
use kazibee_home.Relay.Sound.{IsSound, fresh-IsSound}
use kazibee_home.Relay.Steps.{run-IsSound}

-- A relay with no links yet, beside any registry.
abbrev pub start : List (Sink OwnerEvent) → Registry → Hub
start sinks g = record { relay = fresh sinks; registry = g }

pub reached :
    (sinks : List (Sink OwnerEvent)) (g : Registry) (es : List Event)
    → IsSound (run (start sinks g) es).relay
reached sinks g es = run-IsSound (start sinks g) es (fresh-IsSound sinks)

-- After any events, no promise was resolved twice, none was that waits to be accepted, and none was
-- that was never made; and two promises that wait under different command ids are different.
pub promises_answered_once :
    (sinks : List (Sink OwnerEvent)) (g : Registry) (es : List Event)
    → ((n : ℕ) → answered n (run (start sinks g) es).relay.answers ≤ 1)
      × ((k : String) (p : PendingAccept)
          → Map.get k (run (start sinks g) es).relay.pending ≡ some p
          → answered p.route.serial (run (start sinks g) es).relay.answers ≡ 0)
      × ((n : ℕ)
          → (run (start sinks g) es).relay.routed ≤ n
          → answered n (run (start sinks g) es).relay.answers ≡ 0)
      × ((k j : String) (p q : PendingAccept)
          → Map.get k (run (start sinks g) es).relay.pending ≡ some p
          → Map.get j (run (start sinks g) es).relay.pending ≡ some q
          → p.route.serial ≡ q.route.serial
          → k ≡ j)
promises_answered_once sinks g es =
    let c = (reached sinks g es).coherent in
    (
      c.once,
      c.unanswered,
      c.unused,
      λ k j p q e f s. c.identity k j p.route q.route (c.waiting k p e) (c.waiting j q f) s,
    )

-- After any events, the index by command and the index by correlation hold the same routes, each
-- under its own id, and a promise waits only for a route of the indexes under its command's id.
pub indexes_agree :
    (sinks : List (Sink OwnerEvent)) (g : Registry) (es : List Event)
    → ((k : String) (t : Route)
        → Map.get k (run (start sinks g) es).relay.by_command ≡ some t
        → (t.command_id ≡ k)
          × (Map.get t.correlation_id (run (start sinks g) es).relay.by_correlation ≡ some t))
      × ((k : String) (t : Route)
          → Map.get k (run (start sinks g) es).relay.by_correlation ≡ some t
          → (t.correlation_id ≡ k)
            × (Map.get t.command_id (run (start sinks g) es).relay.by_command ≡ some t))
      × ((k : String) (p : PendingAccept)
          → Map.get k (run (start sinks g) es).relay.pending ≡ some p
          → Map.get k (run (start sinks g) es).relay.by_command ≡ some p.route)
indexes_agree sinks g es =
    let c = (reached sinks g es).coherent in (c.commands, c.correlations, c.waiting)

-- After any events there are at most 1024 routes, 256 promises that wait, 256 links, and 32 routes of
-- each device.
pub relay_in_bounds :
    (sinks : List (Sink OwnerEvent)) (g : Registry) (es : List Event)
    → (Map.size (run (start sinks g) es).relay.by_command ≤ 1024)
      × (Map.size (run (start sinks g) es).relay.pending ≤ 256)
      × (Map.size (run (start sinks g) es).relay.desktops ≤ 256)
      × ((d : String) → device_route_count d (run (start sinks g) es).relay.by_command ≤ 32)
relay_in_bounds sinks g es =
    let v = reached sinks g es in (v.few_commands, v.few_pending, v.few_desktops, v.few_of_device)

-- A promise that waits is taken out together with its route.
module _ (r : Relay) (c : IsCoherent r) (k : String) (p : PendingAccept)
    (waits : Map.get k r.pending ≡ some p) where
  own_id : p.route.command_id ≡ k
  own_id = (c.commands k p.route (c.waiting k p waits)).0

  held : Map.get p.route.command_id r.by_command ≡ some p.route
  held = ap (λ i. Map.get i r.by_command) own_id ∙ c.waiting k p waits

  pub removed : remove_route p.route none r ≡ drop_tables p.route r
  unfolding drop_route
  removed =
      remove_route-held r p.route c
        (λ j u f s. same_route r c j k u p.route f (c.waiting k p waits) s) none held
      ∙ rw (ap (λ i. Map.get i r.pending) own_id ∙ waits) refl

  pub expired :
      expire k p.route.serial r ≡ resolve p.route.serial accept_timeout (drop_tables p.route r)
  unfolding expire
  expired = rw (waits, expire, ==_refl p.route.serial, removed) refl

  pub key_dropped :
      (Map.get k (drop_tables p.route r).pending ≡ none)
      × (Map.get k (drop_tables p.route r).by_command ≡ none)
      × (Map.get p.route.correlation_id (drop_tables p.route r).by_correlation ≡ none)
  unfolding drop_tables
  key_dropped = (
    subst (λ i. Map.get k (Map.delete i r.pending) ≡ none) (sym own_id)
        (Map.get-delete_same k r.pending),
    subst (λ i. Map.get k (Map.delete i r.by_command) ≡ none) (sym own_id)
        (Map.get-delete_same k r.by_command),
    Map.get-delete_same p.route.correlation_id r.by_correlation,
  )

  pub answered_now :
      answered p.route.serial
        (resolve p.route.serial accept_timeout (drop_tables p.route r)).answers
      ≡ 1
  unfolding answered drop_tables
  answered_now = rw (==_refl p.route.serial, c.unanswered k p waits) refl

-- The timer of a command that was not accepted resolves its promise, takes its route out of both
-- indexes and the promise out of those that wait.
pub accept_timer_settles :
    (sinks : List (Sink OwnerEvent)) (g : Registry) (es : List Event) (k : String)
    (p : PendingAccept)
    → Map.get k (run (start sinks g) es).relay.pending ≡ some p
    → (answered p.route.serial (expire k p.route.serial (run (start sinks g) es).relay).answers ≡ 1)
      × (Map.get k (expire k p.route.serial (run (start sinks g) es).relay).pending ≡ none)
      × (Map.get k (expire k p.route.serial (run (start sinks g) es).relay).by_command ≡ none)
      × (Map.get p.route.correlation_id
            (expire k p.route.serial (run (start sinks g) es).relay).by_correlation
          ≡ none)
accept_timer_settles sinks g es k p waits =
    let r = (run (start sinks g) es).relay in
    let c = (reached sinks g es).coherent in
    let (waits_not, not_by_command, not_by_correlation) = key_dropped r c k p waits in
    rw (expired r c k p waits)
      (answered_now r c k p waits, waits_not, not_by_command, not_by_correlation)

write-taken :
    {F : Type 0} (h : ℕ) (f : F) (ws : List (Sink F))
    → writable_ended h ws ≡ false
    → (write h f ws).0 ≡ true
unfolding write writable_ended
write-taken h f [] e = cc
write-taken h f (w ∷ ws) e = ground (arith, write-taken h f ws)

-- A frame that ends the route of a command before the command is accepted.
pub record EndsEarly (r : Relay) (k : String) (p : PendingAccept) (i : String) (f : OutboundFrame)
    (d : DesktopConnection) : Type 0 where
  pub waits : Map.get k r.pending ≡ some p
  pub command : f.command_id ≡ some k
  pub named : str_eq k "" ≡ false
  pub terminal : is_terminal f.kind ≡ true
  pub of_executor : str_eq p.route.executor_id i ≡ true
  pub linked : Map.get p.route.device_id r.desktops ≡ some d
  pub same_fence : str_eq d.fence p.route.desktop_fence ≡ true
  pub is_live : writable_ended d.response r.sinks ≡ false

module _ (r : Relay) (c : IsCoherent r) (k : String) (p : PendingAccept) (i : String)
    (f : OutboundFrame) (d : DesktopConnection) (h : EndsEarly r k p i f d) where
  -- The relay once the frame is written.
  abbrev told : Relay
  told = record r { sinks = (write d.response (OwnerEvent.output f) r.sinks).1 }

  passed : (pass_output f p.route d r).1 ≡ drop_tables p.route told
  unfolding pass_output after_write write_to
  passed =
      rw (h.is_live, write-taken d.response (OwnerEvent.output f) r.sinks h.is_live, h.terminal)
        (removed told (keep_quiet r.desktops r.rates told.sinks r.callbacks r.links c) k p h.waits)

  for_route : route_for f r ≡ some p.route
  for_route = rw (h.command, route_for, h.named) (c.waiting k p h.waits)

  pub ended_early : (route_output i f r).1 ≡ drop_tables p.route told
  unfolding route_output
  ended_early = rw (for_route, route_output, h.of_executor, h.linked, h.same_fence) passed

-- A terminal frame of the executor that is written to the client before the command is accepted
-- takes the command's promise away with its route: nothing has resolved it, and no timer will.
pub early_output_leaves_no_answer :
    (sinks : List (Sink OwnerEvent)) (g : Registry) (es : List Event) (k : String)
    (p : PendingAccept) (i : String) (f : OutboundFrame) (d : DesktopConnection)
    → EndsEarly (run (start sinks g) es).relay k p i f d
    → (Map.get k (route_output i f (run (start sinks g) es).relay).1.pending ≡ none)
      × (answered p.route.serial (route_output i f (run (start sinks g) es).relay).1.answers ≡ 0)
      × ((n : ℕ)
          → expire k n (route_output i f (run (start sinks g) es).relay).1
            ≡ (route_output i f (run (start sinks g) es).relay).1)
unfolding drop_tables expire
early_output_leaves_no_answer sinks g es k p i f d h =
    let r = (run (start sinks g) es).relay in
    let c = (reached sinks g es).coherent in
    let s = told r c k p i f d h in
    let none_waits =
      (key_dropped s (keep_quiet r.desktops r.rates s.sinks r.callbacks r.links c) k p h.waits).0 in
    rw (ended_early r c k p i f d h)
      (none_waits, c.unanswered k p h.waits, λ n. rw (none_waits, expire) refl)
