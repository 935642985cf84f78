-- ===== src/Relay/Clearing.antt =====
-- Loops over the routes of the relay leave none that they are for.
use kazibee_home.Prelude.{
  String, str_eq, Bool, true, false, Option, none, some, List, [], ◌∷◌, ◌≡◌, ◌∙◌, refl, sym, ap,
  arith, Bool-cases, Option-cases, ◌⊎◌, inl, inr, subst,
}
use kazibee_home.Prelude.Map
use kazibee_home.Prelude.Map.{Map}
use kazibee_home.Relay.State.{
  Relay, Route, Outcome, remove_route, remove_desktop_routes, fence_route, fence_executor,
  for_routes, is_desktop_route, unauthorized, executor_offline, safe_error,
}
use kazibee_home.Relay.Coherence.{IsCoherent, IsKnown, drop_route, drop_tables, remove_route-held}
use kazibee_home.Relay.Coherence.Shrinking.{
  IsShrunk, AllKnown, IsShrunk-refl, IsShrunk-remove, keep-AllKnown,
}
use kazibee_home.Relay.Coherence.Operations.{known_values, IsShrunk-write, IsShrunk-fence_route}

abbrev pub In : {A : Type 0} → A → List A → Type 0
In x [] = ⊥
In x (y ∷ ys) = (x ≡ y) ⊎ In x ys

pub In-values :
    {V : Type 0} (k : String) (v : V) (m : Map V) → Map.get k m ≡ some v → In v (Map.values m)
unfolding Map.get
In-values k v [] e = cc
In-values k v ((j, w) ∷ m) e = elim (Bool-cases (str_eq j k)) [
  | inl d ↦ inl (ground (arith, d, e))
  | inr d ↦ inr (In-values k v m (rw d at e))
]

pub not_both : {V : Type 0} {v : V} → none ≡ some v → ⊥
not_both e = cc

-- Where a loop takes out each route that it tests for, none is left that passes the test.
pub loop_clears :
    (body : Route → Relay → Relay) (test : Route → Bool) (ts : List Route) (r : Relay)
    → ((t : Route) (s : Relay) → IsCoherent s → IsKnown t s → IsShrunk s (body t s))
    → ((t : Route) (s : Relay)
        → IsCoherent s
        → IsKnown t s
        → test t ≡ true
        → Map.get t.command_id (body t s).by_command ≡ some t
        → ⊥)
    → IsCoherent r
    → AllKnown ts r
    → ((k : String) (u : Route) → Map.get k r.by_command ≡ some u → In u ts ⊎ (test u ≡ false))
    → (k : String) (u : Route) → Map.get k (for_routes body ts r).by_command ≡ some u
    → test u ≡ false
unfolding for_routes
loop_clears body test [] r each gone c ks all k u e = elim (all k u e) [
  | inl i ↦ absurd i
  | inr f ↦ f
]
loop_clears body test (t ∷ ts) r each gone c ks all k u e =
    let first = each t r c ks.0 in
    loop_clears body test ts (body t r) each gone first.coherent (keep-AllKnown ts first ks.1)
      (λ j w g. elim (all j w (first.commands j w g)) [
        | inr f ↦ inr f
        | inl (inr i) ↦ inl i
        | inl (inl same) ↦ inr (untested j w g same)
      ])
      k u e
  where
    untested :
        (j : String) (w : Route) → Map.get j (body t r).by_command ≡ some w → w ≡ t → test w ≡ false
    untested j w g same = elim (Bool-cases (test t)) [
      | inr f ↦ subst (λ v. test v ≡ false) (sym same) f
      | inl f ↦
          let first = each t r c ks.0 in
          let own : w.command_id ≡ j = (first.coherent.commands j w g).0 in
          let there : Map.get t.command_id (body t r).by_command ≡ some t =
            subst (λ v. Map.get v.command_id (body t r).by_command ≡ some v) same
              (ap (λ i. Map.get i (body t r).by_command) own ∙ g) in
          absurd (gone t r c ks.0 f there)
    ]

pub drop_route-command :
    (t : Route) (o : Option Outcome) (s : Relay)
    → (drop_route t o s).by_command ≡ Map.delete t.command_id s.by_command
unfolding drop_route drop_tables
drop_route-command t none s = elim (Option-cases (Map.get t.command_id s.pending)) [
  | inl n ↦ rw n refl
  | inr (p, n) ↦ rw n refl
]
drop_route-command t (some o) s = elim (Option-cases (Map.get t.command_id s.pending)) [
  | inl n ↦ rw n refl
  | inr (p, n) ↦ rw n refl
]

-- A removed route is not in the index.
pub remove-gone :
    (t : Route) (o : Option Outcome) (s : Relay)
    → IsCoherent s
    → IsKnown t s
    → Map.get t.command_id (remove_route t o s).by_command ≡ some t
    → ⊥
remove-gone t o s c known e =
    let held = (IsShrunk-remove t o c known).commands t.command_id t e in
    not_both (
      sym (Map.get-delete_same t.command_id s.by_command)
      ∙ (ap (Map.get t.command_id) (sym (drop_route-command t o s))
          ∙ (rw (remove_route-held s t c known o held) at e)))

pub values_hold :
    (test : Route → Bool) (r : Relay) (k : String) (u : Route)
    → Map.get k r.by_command ≡ some u
    → In u (Map.values r.by_command) ⊎ (test u ≡ false)
values_hold test r k u e = inl (In-values k u r.by_command e)

pub desktop_routes_cleared :
    (device_id : String) (fence : Option String) (r : Relay)
    → IsCoherent r
    → (k : String) (u : Route)
    → Map.get k (remove_desktop_routes device_id fence r).by_command ≡ some u
    → is_desktop_route device_id fence u ≡ false
unfolding remove_desktop_routes
desktop_routes_cleared device_id fence r c =
    loop_clears _ (is_desktop_route device_id fence) (Map.values r.by_command) r
      (λ t s cs ks. elim (Bool-cases (is_desktop_route device_id fence t)) [
        | inl e ↦ rw e (IsShrunk-remove t (some unauthorized) cs ks)
        | inr e ↦ rw e (IsShrunk-refl cs)
      ])
      (λ t s cs ks e f. remove-gone t (some unauthorized) s cs ks (rw e at f)) c (known_values c)
      (values_hold (is_desktop_route device_id fence) r)

pub fence_route-gone :
    (t : Route) (s : Relay)
    → IsCoherent s
    → IsKnown t s
    → Map.get t.command_id (fence_route t s).by_command ≡ some t
    → ⊥
unfolding fence_route
fence_route-gone t s c known e = elim (Option-cases (Map.get t.device_id s.desktops)) [
  | inl n ↦ remove-gone t (some executor_offline) s c known (rw (n, fence_route) at e)
  | inr (d, n) ↦ elim (Bool-cases (str_eq d.fence t.desktop_fence)) [
    | inr m ↦ remove-gone t (some executor_offline) s c known (rw (n, fence_route, m) at e)
    | inl m ↦
        let told =
          IsShrunk-write d (safe_error "executor-offline" "Executor is offline" t.correlation_id)
            c in
        remove-gone t (some executor_offline) _ told.coherent
          (λ k u f. known k u (told.commands k u f)) (rw (n, fence_route, m) at e)
  ]
]

pub executor_routes_cleared :
    (executor_id : String) (r : Relay)
    → IsCoherent r
    → (k : String) (u : Route) → Map.get k (fence_executor executor_id r).by_command ≡ some u
    → str_eq u.executor_id executor_id ≡ false
unfolding fence_executor
executor_routes_cleared executor_id r c =
    loop_clears _ (λ t. str_eq t.executor_id executor_id) (Map.values r.by_command) r
      (λ t s cs ks. elim (Bool-cases (str_eq t.executor_id executor_id)) [
        | inl e ↦ rw e (IsShrunk-fence_route t cs ks)
        | inr e ↦ rw e (IsShrunk-refl cs)
      ])
      (λ t s cs ks e f. fence_route-gone t s cs ks (rw e at f)) c (known_values c)
      (values_hold (λ t. str_eq t.executor_id executor_id) r)
