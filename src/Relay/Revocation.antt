-- ===== src/Relay/Revocation.antt =====
-- What is left in the relay where a link closes, and where an executor's credential is revoked.
use kazibee_home.Prelude.{
  String, str_eq, eq_refl, false, none, some, List, [], ◌∷◌, ◌≡◌, ◌∙◌, sym, ap, Bool-cases,
  Option-cases, ◌⊎◌, inl, inr, subst,
}
use kazibee_home.Prelude.Map
use kazibee_home.Prelude.Map.{Map}
use kazibee_home.Sse.{Sink}
use kazibee_home.Registry.{Registry}
use kazibee_home.Relay.State.{
  Relay, Route, DesktopConnection, OwnerEvent, is_desktop_route, safe_error,
}
use kazibee_home.Relay.Links.{close, revoke_link, revoke_links, revoke_executor, is_admitted_by}
use kazibee_home.Relay.Hub.{Event, run}
use kazibee_home.Relay.Promises.{start, reached}
use kazibee_home.Relay.Coherence.{IsCoherent}
use kazibee_home.Relay.Coherence.Shrinking.{IsShrunk-desktop}
use kazibee_home.Relay.Coherence.Operations.{
  IsShrunk-write, IsShrunk-desktop_routes, IsShrunk-fence_executor, IsShrunk-end_sink,
  IsShrunk-revoke_link, IsShrunk-revoke_links,
}
use kazibee_home.Relay.Sound.{IsSound, shrunk-IsSound}
use kazibee_home.Relay.Clearing.{
  In, In-values, desktop_routes_cleared, executor_routes_cleared, not_both,
}

-- After any events, where a link closes under its own fence, the device has no link and no route of
-- that fence.
pub close_clears_its_routes :
    (sinks : List (Sink OwnerEvent)) (g : Registry) (es : List Event) (device_id : String)
    (d : DesktopConnection)
    → Map.get device_id (run (start sinks g) es).relay.desktops ≡ some d
    → (Map.get device_id (close device_id d.fence (run (start sinks g) es).relay).desktops ≡ none)
      × ((k : String) (u : Route)
          → Map.get k (close device_id d.fence (run (start sinks g) es).relay).by_command ≡ some u
          → is_desktop_route device_id (some d.fence) u ≡ false)
unfolding close
close_clears_its_routes sinks g es device_id d e =
    let r = (run (start sinks g) es).relay in
    let gone =
      IsShrunk-desktop device_id (Map.delete device_id r.rates) (reached sinks g es).coherent in
    let cleared = IsShrunk-desktop_routes device_id (some d.fence) gone.coherent in
    rw (e, close, eq_refl d.fence)
      (
        absent device_id _ (λ c f.
            not_both
              (sym (Map.get-delete_same device_id r.desktops) ∙ cleared.desktops device_id c f)),
        desktop_routes_cleared device_id (some d.fence) _ gone.coherent,
      )
  where
    absent :
        {V : Type 0} (k : String) (m : Map V)
        → ((v : V) → Map.get k m ≡ some v → ⊥)
        → Map.get k m ≡ none
    absent k m never = elim (Option-cases (Map.get k m)) [
      | inl n ↦ n
      | inr (v, f) ↦ absurd (never v f)
    ]

-- The link of a revoked credential is gone after its turn.
revoke_link-gone :
    (i : String) (d : DesktopConnection) (s : Relay) (u : DesktopConnection)
    → IsCoherent s
    → Map.get d.device_id (revoke_link i d s).desktops ≡ some u
    → ⊥
unfolding revoke_link
revoke_link-gone i d s u c e =
    let told = IsShrunk-write d (safe_error "revoked" "Executor credential was revoked" i) c in
    let ended = IsShrunk-end_sink d.response told.coherent in
    let gone = IsShrunk-desktop d.device_id _ ended.coherent in
    let cleared = IsShrunk-desktop_routes d.device_id (some d.fence) gone.coherent in
    not_both (sym (Map.get-delete_same d.device_id _) ∙ cleared.desktops d.device_id u e)

links_cleared :
    (e i : String) (ds : List DesktopConnection) (r : Relay)
    → IsSound r
    → ((k : String) (u : DesktopConnection)
        → Map.get k r.desktops ≡ some u
        → In u ds ⊎ (is_admitted_by e u.authority ≡ false))
    → (k : String) (u : DesktopConnection) → Map.get k (revoke_links e i ds r).desktops ≡ some u
    → is_admitted_by e u.authority ≡ false
unfolding revoke_links
links_cleared e i [] r v all k u f = elim (all k u f) [ inl x ↦ absurd x | inr h ↦ h ]
links_cleared e i (d ∷ ds) r v all k u f = elim (Bool-cases (is_admitted_by e d.authority)) [
  | inr a ↦
      links_cleared e i ds r v
        (λ j w g. elim (all j w g) [
          | inr h ↦ inr h
          | inl (inr x) ↦ inl x
          | inl (inl same) ↦ inr (subst (λ c. is_admitted_by e c.authority ≡ false) (sym same) a)
        ])
        k u (rw (a, revoke_links) at f)
  | inl a ↦
      let first = IsShrunk-revoke_link i d v.coherent in
      links_cleared e i ds (revoke_link i d r) (shrunk-IsSound v first)
        (λ j w g. elim (all j w (first.desktops j w g)) [
          | inr h ↦ inr h
          | inl (inr x) ↦ inl x
          | inl (inl same) ↦
              let own : d.device_id ≡ j =
                ap (λ (c : DesktopConnection). c.device_id) (sym same)
                ∙ v.keyed j w (first.desktops j w g) in
              absurd (
                revoke_link-gone i d r w v.coherent
                  (ap (λ x. Map.get x (revoke_link i d r).desktops) own ∙ g))
        ])
        k u (rw (a, revoke_links) at f)
]

-- After any events, where an executor's credential is revoked, no client's link that was admitted by
-- it is left, and no route to the executor.
pub revoked_executor_has_nothing :
    (sinks : List (Sink OwnerEvent)) (g : Registry) (es : List Event) (e i : String)
    → ((k : String) (d : DesktopConnection)
        → Map.get k (revoke_executor e i (run (start sinks g) es).relay).desktops ≡ some d
        → is_admitted_by e d.authority ≡ false)
      × ((k : String) (t : Route)
          → Map.get k (revoke_executor e i (run (start sinks g) es).relay).by_command ≡ some t
          → str_eq t.executor_id e ≡ false)
unfolding revoke_executor
revoked_executor_has_nothing sinks g es e i =
    let r = (run (start sinks g) es).relay in
    let v = reached sinks g es in
    let links = IsShrunk-revoke_links e i (Map.values r.desktops) v.coherent in
    let fenced = IsShrunk-fence_executor e links.coherent in
    (
      λ k d f.
          links_cleared e i (Map.values r.desktops) r v (λ j w h. inl (In-values j w r.desktops h))
            k d (fenced.desktops k d f),
      executor_routes_cleared e _ links.coherent,
    )
