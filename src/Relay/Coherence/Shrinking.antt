-- ===== src/Relay/Coherence/Shrinking.antt =====
-- The operations of the relay that only take routes and links away.
use kazibee_home.Prelude.{
  String, ◌≤◌, Option, none, some, List, [], ◌∷◌, ◌≡◌, ◌∙◌, refl, inl, inr, arith, Option-cases,
  All,
}
use kazibee_home.Prelude.Map
use kazibee_home.Prelude.Map.{Map}
use kazibee_home.Sse.{Sink}
use kazibee_home.Relay.State.{
  Relay, Route, Rate, DesktopConnection, CloseCallback, OwnerEvent, Outcome, remove_route,
  for_routes, resolve_with,
}
use kazibee_home.Relay.Routing.{device_route_count}
use kazibee_home.Relay.Coherence.{
  IsCoherent, IsKnown, drop_route, drop_tables, remove_route-cases, get_of_delete, keep_quiet,
}
use kazibee_home.Relay.Coherence.Removal.{drop_route-IsCoherent}

-- The second relay is coherent, and has only links and routes of the first.
pub record IsShrunk (r s : Relay) : Type 0 where
  pub coherent : IsCoherent s
  pub commands :
      (k : String) (t : Route) → Map.get k s.by_command ≡ some t → Map.get k r.by_command ≡ some t
  pub desktops :
      (k : String) (d : DesktopConnection)
      → Map.get k s.desktops ≡ some d
      → Map.get k r.desktops ≡ some d
  pub few_commands : Map.size s.by_command ≤ Map.size r.by_command
  pub few_pending : Map.size s.pending ≤ Map.size r.pending
  pub few_desktops : Map.size s.desktops ≤ Map.size r.desktops
  pub few_of_device :
      (d : String) → device_route_count d s.by_command ≤ device_route_count d r.by_command
  pub same_routed : s.routed ≡ r.routed

pub IsShrunk-refl : {r : Relay} → IsCoherent r → IsShrunk r r
IsShrunk-refl c = record {
  coherent = c;
  commands = λ k t e. e;
  desktops = λ k d e. e;
  few_commands = omega arith;
  few_pending = omega arith;
  few_desktops = omega arith;
  few_of_device = λ d. omega arith;
  same_routed = refl;
}

pub IsShrunk-trans : {r s u : Relay} → IsShrunk r s → IsShrunk s u → IsShrunk r u
IsShrunk-trans a b = record {
  coherent = b.coherent;
  commands = λ k t e. a.commands k t (b.commands k t e);
  desktops = λ k d e. a.desktops k d (b.desktops k d e);
  few_commands = omega (arith, a.few_commands, b.few_commands);
  few_pending = omega (arith, a.few_pending, b.few_pending);
  few_desktops = omega (arith, a.few_desktops, b.few_desktops);
  few_of_device = λ d. omega (arith, a.few_of_device d, b.few_of_device d);
  same_routed = b.same_routed ∙ a.same_routed;
}

pub IsShrunk-sinks :
    {r : Relay} (ss : List (Sink OwnerEvent)) (cs : List CloseCallback)
    → IsCoherent r
    → IsShrunk r (record r { sinks = ss; callbacks = cs })
IsShrunk-sinks {r} ss cs c = record {
  coherent = keep_quiet r.desktops r.rates ss cs r.links c;
  commands = λ k t e. e;
  desktops = λ k d e. e;
  few_commands = omega arith;
  few_pending = omega arith;
  few_desktops = omega arith;
  few_of_device = λ d. omega arith;
  same_routed = refl;
}

pub IsShrunk-desktop :
    {r : Relay} (device_id : String) (rs : Map Rate)
    → IsCoherent r
    → IsShrunk r (record r { desktops = Map.delete device_id r.desktops; rates = rs })
IsShrunk-desktop {r} device_id rs c = record {
  coherent = keep_quiet (Map.delete device_id r.desktops) rs r.sinks r.callbacks r.links c;
  commands = λ k t e. e;
  desktops = λ k d e. (get_of_delete device_id k d r.desktops e).1;
  few_commands = omega arith;
  few_pending = omega arith;
  few_desktops = Map.size-delete-le device_id r.desktops;
  few_of_device = λ d. omega arith;
  same_routed = refl;
}

pub IsShrunk-rates :
    {r : Relay} (rs : Map Rate) → IsCoherent r → IsShrunk r (record r { rates = rs })
IsShrunk-rates {r} rs c = record {
  coherent = keep_quiet r.desktops rs r.sinks r.callbacks r.links c;
  commands = λ k t e. e;
  desktops = λ k d e. e;
  few_commands = omega arith;
  few_pending = omega arith;
  few_desktops = omega arith;
  few_of_device = λ d. omega arith;
  same_routed = refl;
}

count-delete-le :
    (d k : String) (m : Map Route) → device_route_count d (Map.delete k m) ≤ device_route_count d m
unfolding device_route_count Map.delete
count-delete-le d k [] = omega arith
count-delete-le d k ((j, t) ∷ m) = ground (arith, count-delete-le d k m)

IsShrunk-tables :
    {r s : Relay} (t : Route)
    → IsCoherent s
    → s.by_command ≡ Map.delete t.command_id r.by_command
    → s.pending ≡ Map.delete t.command_id r.pending
    → s.desktops ≡ r.desktops
    → s.routed ≡ r.routed
    → IsShrunk r s
IsShrunk-tables {r} {s} t c commands pending desktops routed = record {
  coherent = c;
  commands = λ k u e. (get_of_delete t.command_id k u r.by_command (rw commands at e)).1;
  desktops = λ k d e. rw desktops at e;
  few_commands = rw commands (Map.size-delete-le t.command_id r.by_command);
  few_pending = rw pending (Map.size-delete-le t.command_id r.pending);
  few_desktops = rw desktops (omega arith);
  few_of_device = λ d. rw commands (count-delete-le d t.command_id r.by_command);
  same_routed = routed;
}

IsShrunk-drop :
    {r : Relay} (t : Route) (result : Option Outcome)
    → IsCoherent r
    → Map.get t.command_id r.by_command ≡ some t
    → IsShrunk r (drop_route t result r)
unfolding drop_route drop_tables
IsShrunk-drop {r} t result c held =
    let kept = drop_route-IsCoherent r c t held result in
    elim (Option-cases (Map.get t.command_id r.pending)) [
      | inl n ↦ rw n (IsShrunk-tables t (rw n at kept) refl refl refl refl)
      | inr (p, e) ↦ rw e (resolved result (rw e at kept))
    ]
  where
    resolved :
        (o : Option Outcome)
        → IsCoherent (resolve_with t.serial o (drop_tables t r))
        → IsShrunk r (resolve_with t.serial o (drop_tables t r))
    resolved none k = IsShrunk-tables t k refl refl refl refl
    resolved (some o) k = IsShrunk-tables t k refl refl refl refl

pub IsShrunk-remove :
    {r : Relay} (t : Route) (result : Option Outcome)
    → IsCoherent r
    → IsKnown t r
    → IsShrunk r (remove_route t result r)
IsShrunk-remove {r} t result c known = elim (remove_route-cases r t c known result) [
  | inl e ↦ rw e (IsShrunk-refl c)
  | inr (held, e) ↦ rw e (IsShrunk-drop t result c held)
]

-- What was known stays so, as routes only leave.
pub keep-IsKnown : {r s : Relay} (t : Route) → IsShrunk r s → IsKnown t r → IsKnown t s
keep-IsKnown t h known k u e = known k u (h.commands k u e)

abbrev pub AllKnown : List Route → Relay → Type 0
AllKnown ts r = All (λ t. IsKnown t r) ts

pub keep-AllKnown : {r s : Relay} (ts : List Route) → IsShrunk r s → AllKnown ts r → AllKnown ts s
keep-AllKnown [] h ks = tt
keep-AllKnown (t ∷ ts) h ks = (keep-IsKnown t h ks.0, keep-AllKnown ts h ks.1)

-- The loop over the routes as they were, for a body that shrinks the relay at each of them.
pub IsShrunk-loop :
    (body : Route → Relay → Relay) (ts : List Route) (r : Relay)
    → ((t : Route) (s : Relay) → IsCoherent s → IsKnown t s → IsShrunk s (body t s))
    → IsCoherent r
    → AllKnown ts r
    → IsShrunk r (for_routes body ts r)
unfolding for_routes
IsShrunk-loop body [] r each c ks = IsShrunk-refl c
IsShrunk-loop body (t ∷ ts) r each c ks =
    let first = each t r c ks.0 in
    IsShrunk-trans first
      (IsShrunk-loop body ts (body t r) each first.coherent (keep-AllKnown ts first ks.1))
