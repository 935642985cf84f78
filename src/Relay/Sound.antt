-- ===== src/Relay/Sound.antt =====
-- The invariant of the relay with its bounds, under the operations that add a link or a route.
use kazibee_home.Prelude.{
  ℕ, suc, String, ◌+◌, ◌-◌, ◌≤◌, ◌<◌, ltb, leb, str_eq, eq_iff, eq_refl, Bool, true, false, Option,
  none, some, List, [], ◌∷◌, ◌≡◌, ◌∙◌, refl, sym, ap, subst, arith, Bool-cases, Option-cases, inl,
  inr,
}
use kazibee_home.Prelude.Map
use kazibee_home.Prelude.Map.{Map}
use kazibee_home.Sse.{Sink}
use kazibee_home.Relay.State.{
  Relay, DesktopConnection, ClientRelayActor, OwnerEvent, fresh, max_routes, max_pending_accepts,
  max_device_in_flight, max_connections,
}
use kazibee_home.Relay.Links.{
  close, end_sink, make_room, admit, open_link, client_events, is_refused, connection_of,
}
use kazibee_home.Relay.Routing.{
  begin_command, admit_command, take_rate, device_route_count, after_rate, is_admitted,
}
use kazibee_home.Relay.Source.{CommandFrame, nested_target_fence}
use kazibee_home.Relay.Coherence.{IsCoherent, answered, keep_quiet}
use kazibee_home.Relay.Coherence.Shrinking.{
  IsShrunk, IsShrunk-refl, IsShrunk-trans, IsShrunk-rates, IsShrunk-desktop,
}
use kazibee_home.Relay.Coherence.Operations.{
  IsShrunk-make_room, IsShrunk-close, IsShrunk-end_sink, IsShrunk-desktop_routes, IsShrunk-replace,
  IsShrunk-refuse, IsShrunk-on_close,
}

pub record IsSound (r : Relay) : Type 0 where
  pub coherent : IsCoherent r
  pub few_commands : Map.size r.by_command ≤ max_routes
  pub few_pending : Map.size r.pending ≤ max_pending_accepts
  pub few_desktops : Map.size r.desktops ≤ max_connections
  pub few_of_device : (d : String) → device_route_count d r.by_command ≤ max_device_in_flight
  pub keyed : (k : String) (d : DesktopConnection) → Map.get k r.desktops ≡ some d → d.device_id ≡ k

pub shrunk-IsSound : {r s : Relay} → IsSound r → IsShrunk r s → IsSound s
shrunk-IsSound v h = record {
  coherent = h.coherent;
  few_commands = omega (arith, v.few_commands, h.few_commands);
  few_pending = omega (arith, v.few_pending, h.few_pending);
  few_desktops = omega (arith, v.few_desktops, h.few_desktops);
  few_of_device = λ d. omega (arith, v.few_of_device d, h.few_of_device d);
  keyed = λ k d e. v.keyed k d (h.desktops k d e);
}

pub fresh-IsSound : (sinks : List (Sink OwnerEvent)) → IsSound (fresh sinks)
unfolding fresh Map.get answered device_route_count
fresh-IsSound sinks = record {
  coherent = record {
    commands = λ k t e. absurd (not_both e);
    correlations = λ k t e. absurd (not_both e);
    waiting = λ k t e. absurd (not_both e);
    identity = λ k j t u e f s. absurd (not_both e);
    numbered = λ k t e. absurd (not_both e);
    unanswered = λ k t e. absurd (not_both e);
    once = λ t. omega arith;
    unique = tt;
    unused = λ t h. refl;
  };
  few_commands = omega arith;
  few_pending = omega arith;
  few_desktops = omega arith;
  few_of_device = λ d. omega arith;
  keyed = λ k d e. absurd (not_both e);
}
  where
    not_both : {V : Type 0} {v : V} → none ≡ some v → ⊥
    not_both e = cc

size-delete_first :
    {V : Type 0} (k : String) (v : V) (m : Map V)
    → Map.size (Map.delete k ((k, v) ∷ m)) ≤ Map.size m
unfolding Map.delete
size-delete_first k v m = rw (eq_refl k) (Map.size-delete-le k m)

-- The oldest link is closed by its own id and fence, and one link fewer is left.
close_first :
    (k : String) (o : DesktopConnection) (m : Map DesktopConnection) (r : Relay)
    → r.desktops ≡ (k, o) ∷ m
    → IsSound r
    → suc (Map.size (close o.device_id o.fence r).desktops) ≤ Map.size r.desktops
unfolding close Map.get
close_first k o m r e v =
    let first : Map.get k r.desktops ≡ some o = rw (e, eq_refl k) refl in
    let own : o.device_id ≡ k = v.keyed k o first in
    let found : Map.get o.device_id r.desktops ≡ some o =
      ap (λ i. Map.get i r.desktops) own ∙ first in
    let gone = IsShrunk-desktop o.device_id (Map.delete o.device_id r.rates) v.coherent in
    let routes = IsShrunk-desktop_routes o.device_id (some o.fence) gone.coherent in
    let fewer : Map.size (Map.delete o.device_id r.desktops) ≤ Map.size m =
      subst (λ i. Map.size (Map.delete i r.desktops) ≤ Map.size m) (sym own)
        (rw e (size-delete_first k o m)) in
    rw (found, close, eq_refl o.fence)
      (omega (arith, routes.few_desktops, fewer, ap (λ (d : Map DesktopConnection). Map.size d) e))

-- A round for each link is enough for room.
make_room_lem :
    (n : ℕ) (r : Relay)
    → Map.size r.desktops ≤ n
    → IsSound r
    → Map.size (make_room n r).desktops < max_connections
unfolding make_room
make_room_lem ℕ.zero r h v = omega arith
make_room_lem (suc n) r h v = elim (Bool-cases (ltb (Map.size r.desktops) max_connections)) [
  | inl e ↦ rw e (ground arith)
  | inr e ↦ rw e (oldest r.desktops refl (make_room_lem n))
]
  where
    oldest :
        (m : Map DesktopConnection)
        → r.desktops ≡ m
        → ((s : Relay)
            → Map.size s.desktops ≤ n
            → IsSound s
            → Map.size (make_room n s).desktops < max_connections)
        → Map.size
            (elim m as (λ _. Relay) [
              | [] ↦ r
              | (k, o) ∷ rest ↦ make_room n (end_sink o.response (close o.device_id o.fence r))
            ]).desktops
          < max_connections
    oldest [] e next = rw e (omega arith)
    oldest ((k, o) ∷ rest) e next =
        let shut = IsShrunk-close o.device_id o.fence v.coherent in
        let ended = IsShrunk-end_sink o.response shut.coherent in
        next (end_sink o.response (close o.device_id o.fence r))
          (omega (arith, h, close_first k o rest r e v, ended.few_desktops))
          (shrunk-IsSound v (IsShrunk-trans shut ended))

pub admit-IsSound :
    (a : ClientRelayActor) (fence : String) (response : ℕ) (r : Relay)
    → IsSound r
    → IsSound (admit a fence response r)
unfolding admit
admit-IsSound a fence response r v =
    let n = Map.size r.desktops in
    let s = make_room n r in
    let room = shrunk-IsSound v (IsShrunk-make_room n v.coherent) in
    let small = make_room_lem n r (omega arith) v in
    let c : DesktopConnection = connection_of a fence response s.links in
    record {
      coherent =
          keep_quiet (Map.set a.device_id c s.desktops) s.rates s.sinks s.callbacks (s.links + 1)
            room.coherent;
      few_commands = room.few_commands;
      few_pending = room.few_pending;
      few_desktops = omega (arith, small, Map.size-set-le a.device_id c s.desktops);
      few_of_device = room.few_of_device;
      keyed = λ k d e.
          ground (
            arith,
            Map.get-set a.device_id k c s.desktops,
            room.keyed k d,
            e,
            eq_iff a.device_id k,
          );
    }

pub client_events-IsSound :
    (a : ClientRelayActor) (fence : String) (response : ℕ) (r : Relay)
    → IsSound r
    → IsSound (client_events a fence response r)
unfolding client_events open_link
client_events-IsSound a fence response r v = elim (Bool-cases (is_refused a r)) [
  | inl e ↦ rw e (
      let no = IsShrunk-refuse a response v.coherent in
      shrunk-IsSound v (IsShrunk-trans no (IsShrunk-on_close _ no.coherent)))
  | inr e ↦ rw e (
      let alone = IsShrunk-replace a.device_id (Map.get a.device_id r.desktops) v.coherent in
      let opened = admit-IsSound a fence response _ (shrunk-IsSound v alone) in
      shrunk-IsSound opened (IsShrunk-on_close _ opened.coherent))
]

IsShrunk-rate : (now : ℕ) (d : String) (r : Relay) → IsCoherent r → IsShrunk r (take_rate now d r).1
unfolding take_rate
IsShrunk-rate now d r c = elim (Option-cases (Map.get d r.rates)) [
  | inl n ↦ rw (n, take_rate) (IsShrunk-rates _ c)
  | inr (w, n) ↦ elim (Bool-cases (leb 60000 (now - w.window_started_ms))) [
    | inl e ↦ rw (n, take_rate, e) (IsShrunk-rates _ c)
    | inr e ↦ elim (Bool-cases (leb 120 w.count)) [
      | inl f ↦ rw (n, take_rate, e, f) (IsShrunk-refl c)
      | inr f ↦ rw (n, take_rate, e, f) (IsShrunk-rates _ c)
    ]
  ]
]

after_rate-relay : (d : DesktopConnection) (p : Bool × Relay) → (after_rate d p).1 ≡ p.1
unfolding after_rate
after_rate-relay d (true, r) = refl
after_rate-relay d (false, r) = refl

IsShrunk-admit :
    (now : ℕ) (a : ClientRelayActor) (f : CommandFrame) (d : DesktopConnection) (r : Relay)
    → IsCoherent r
    → IsShrunk r (admit_command now a f d r).1
unfolding admit_command
IsShrunk-admit now a f d r c = elim (Bool-cases (is_admitted a f d)) [
  | inr e ↦ rw e (IsShrunk-refl c)
  | inl e ↦
      rw (e, after_rate-relay d (take_rate now a.device_id r)) (IsShrunk-rate now a.device_id r c)
]

pub IsShrunk-begin :
    (now : ℕ) (deployment : Option String) (a : ClientRelayActor) (f : CommandFrame) (r : Relay)
    → IsCoherent r
    → IsShrunk r (begin_command now deployment a f r).1
unfolding begin_command
IsShrunk-begin now none a f r c = IsShrunk-refl c
IsShrunk-begin now (some deployment) a f r c =
    elim (Bool-cases (str_eq f.website_deployment_id deployment)) [
      | inr e ↦ rw e (IsShrunk-refl c)
      | inl e ↦ elim (Option-cases (nested_target_fence f)) [
        | inr (o, n) ↦ rw (e, n, begin_command) (IsShrunk-refl c)
        | inl n ↦ elim (Option-cases (Map.get a.device_id r.desktops)) [
          | inl m ↦ rw (e, n, m, begin_command) (IsShrunk-refl c)
          | inr (d, m) ↦ rw (e, n, m, begin_command) (IsShrunk-admit now a f d r c)
        ]
      ]
    ]
