-- ===== src/Relay/Coherence/Operations.antt =====
-- The operations of the relay that take routes and links away, one by one.
use kazibee_home.Prelude.{
  ℕ, suc, String, ◌==◌, ltb, str_eq, eq_iff, eq_refl, Option, none, some, List, [], ◌∷◌, ◌≡◌, refl,
  arith, Bool-cases, Option-cases, All, inl, inr,
}
use kazibee_home.Prelude.Map
use kazibee_home.Prelude.Map.{Map, IsUnique}
use kazibee_home.Sse.{writable_ended, end_stream}
use kazibee_home.Relay.State.{
  Relay, Route, DesktopConnection, CloseCallback, ClientRelayActor, OwnerEvent,
  remove_desktop_routes, fence_route, fence_executor, write_to, is_desktop_route, unauthorized,
  executor_offline, safe_error, max_connections,
}
use kazibee_home.Relay.Links.{
  close, run_callbacks, end_sink, on_close, make_room, refuse, replace_link, revoke_desktop,
  revoke_link, revoke_links, revoke_executor, is_admitted_by, connection_of,
}
use kazibee_home.Relay.Hub.{fence_all}
use kazibee_home.Relay.Coherence.{IsCoherent, IsKnown}
use kazibee_home.Relay.Coherence.Removal.{same_route}
use kazibee_home.Relay.Coherence.Shrinking.{
  IsShrunk, IsShrunk-refl, IsShrunk-trans, IsShrunk-sinks, IsShrunk-rates, IsShrunk-desktop,
  IsShrunk-remove, IsShrunk-loop, AllKnown,
}

All-values :
    {V : Type 0} (P : V → Type 0) (m : Map V)
    → IsUnique m
    → ((k : String) (v : V) → Map.get k m ≡ some v → P v)
    → All P (Map.values m)
unfolding Map.get
All-values P [] u h = tt
All-values P ((j, v) ∷ m) u h = (
  h j v (rw (eq_refl j) refl),
  All-values P m u.1 (λ k w e. h k w (ground (arith, eq_iff j k, u.0, e))),
)

pub known_values : {r : Relay} → IsCoherent r → AllKnown (Map.values r.by_command) r
known_values {r} c =
    All-values (λ t. IsKnown t r) r.by_command c.unique
      (λ k t e. λ j u f s. same_route r c j k u t f e s)

pub IsShrunk-write :
    {r : Relay} (d : DesktopConnection) (e : OwnerEvent)
    → IsCoherent r
    → IsShrunk r (write_to d e r).1
unfolding write_to
IsShrunk-write {r} d e c = elim (Bool-cases (writable_ended d.response r.sinks)) [
  | inl f ↦ rw f (IsShrunk-refl c)
  | inr f ↦ rw f (IsShrunk-sinks _ r.callbacks c)
]

-- A relay that an operation shrank shrinks further.
pub then-IsShrunk : {r s u : Relay} → IsShrunk r s → (IsCoherent s → IsShrunk s u) → IsShrunk r u
then-IsShrunk a f = IsShrunk-trans a (f a.coherent)

pub IsShrunk-desktop_routes :
    {r : Relay} (device_id : String) (fence : Option String)
    → IsCoherent r
    → IsShrunk r (remove_desktop_routes device_id fence r)
unfolding remove_desktop_routes
IsShrunk-desktop_routes {r} device_id fence c =
    IsShrunk-loop _ (Map.values r.by_command) r
      (λ t s cs ks. elim (Bool-cases (is_desktop_route device_id fence t)) [
        | inl e ↦ rw e (IsShrunk-remove t (some unauthorized) cs ks)
        | inr e ↦ rw e (IsShrunk-refl cs)
      ])
      c (known_values c)

pub IsShrunk-fence_route :
    {r : Relay} (t : Route) → IsCoherent r → IsKnown t r → IsShrunk r (fence_route t r)
unfolding fence_route
IsShrunk-fence_route {r} t c known = elim (Option-cases (Map.get t.device_id r.desktops)) [
  | inl n ↦ rw (n, fence_route) (IsShrunk-remove t (some executor_offline) c known)
  | inr (d, n) ↦ elim (Bool-cases (str_eq d.fence t.desktop_fence)) [
    | inr e ↦ rw (n, fence_route, e) (IsShrunk-remove t (some executor_offline) c known)
    | inl e ↦
        rw (n, fence_route, e)
          (let told =
              IsShrunk-write d
                (safe_error "executor-offline" "Executor is offline" t.correlation_id) c in
            IsShrunk-trans told (
              IsShrunk-remove t (some executor_offline) told.coherent
                (λ k u f. known k u (told.commands k u f))))
  ]
]

pub IsShrunk-fence_executor :
    {r : Relay} (executor_id : String) → IsCoherent r → IsShrunk r (fence_executor executor_id r)
unfolding fence_executor
IsShrunk-fence_executor {r} executor_id c =
    IsShrunk-loop _ (Map.values r.by_command) r
      (λ t s cs ks. elim (Bool-cases (str_eq t.executor_id executor_id)) [
        | inl e ↦ rw e (IsShrunk-fence_route t cs ks)
        | inr e ↦ rw e (IsShrunk-refl cs)
      ])
      c (known_values c)

pub IsShrunk-fence_all :
    (ids : List String) {r : Relay} → IsCoherent r → IsShrunk r (fence_all ids r)
unfolding fence_all
IsShrunk-fence_all [] c = IsShrunk-refl c
IsShrunk-fence_all (i ∷ ids) c =
    then-IsShrunk (IsShrunk-fence_executor i c) (IsShrunk-fence_all ids)

pub IsShrunk-close :
    {r : Relay} (device_id fence : String) → IsCoherent r → IsShrunk r (close device_id fence r)
unfolding close
IsShrunk-close {r} device_id fence c = elim (Option-cases (Map.get device_id r.desktops)) [
  | inl n ↦ rw (n, close) (IsShrunk-refl c)
  | inr (d, n) ↦ elim (Bool-cases (str_eq d.fence fence)) [
    | inr e ↦ rw (n, close, e) (IsShrunk-refl c)
    | inl e ↦
        rw (n, close, e)
          (then-IsShrunk (IsShrunk-desktop device_id (Map.delete device_id r.rates) c)
            (IsShrunk-desktop_routes device_id (some fence)))
  ]
]

IsShrunk-callbacks :
    (h : ℕ) (bs : List CloseCallback) {r : Relay} → IsCoherent r → IsShrunk r (run_callbacks h bs r)
unfolding run_callbacks
IsShrunk-callbacks h [] c = IsShrunk-refl c
IsShrunk-callbacks h (b ∷ bs) c = elim (Bool-cases (b.handle == h)) [
  | inl e ↦ rw e (then-IsShrunk (IsShrunk-close b.device_id b.fence c) (IsShrunk-callbacks h bs))
  | inr e ↦ rw e (IsShrunk-callbacks h bs c)
]

pub IsShrunk-end_sink : {r : Relay} (h : ℕ) → IsCoherent r → IsShrunk r (end_sink h r)
unfolding end_sink
IsShrunk-end_sink {r} h c = elim (Bool-cases (writable_ended h r.sinks)) [
  | inl e ↦ rw e (IsShrunk-refl c)
  | inr e ↦ rw e (
      then-IsShrunk (IsShrunk-sinks (end_stream h r.sinks) r.callbacks c)
        (λ c'. then-IsShrunk (IsShrunk-callbacks h r.callbacks c') (λ c''. IsShrunk-sinks _ _ c'')))
]

pub IsShrunk-on_close : {r : Relay} (b : CloseCallback) → IsCoherent r → IsShrunk r (on_close b r)
unfolding on_close
IsShrunk-on_close {r} b c = elim (Bool-cases (writable_ended b.handle r.sinks)) [
  | inl e ↦ rw e (IsShrunk-close b.device_id b.fence c)
  | inr e ↦ rw e (IsShrunk-sinks r.sinks _ c)
]

pub IsShrunk-make_room : (n : ℕ) {r : Relay} → IsCoherent r → IsShrunk r (make_room n r)
unfolding make_room
IsShrunk-make_room ℕ.zero c = IsShrunk-refl c
IsShrunk-make_room (suc n) {r} c = elim (Bool-cases (ltb (Map.size r.desktops) max_connections)) [
  | inl e ↦ rw e (IsShrunk-refl c)
  | inr e ↦ rw e (oldest r.desktops (λ s. IsShrunk-make_room n {r = s}))
]
  where
    oldest :
        (m : Map DesktopConnection)
        → ((s : Relay) → IsCoherent s → IsShrunk s (make_room n s))
        → IsShrunk r (elim m [
          | [] ↦ r
          | (k, o) ∷ rest ↦ make_room n (end_sink o.response (close o.device_id o.fence r))
        ])
    oldest [] next = IsShrunk-refl c
    oldest ((k, o) ∷ rest) next =
        then-IsShrunk (IsShrunk-close o.device_id o.fence c)
          (λ c'. then-IsShrunk (IsShrunk-end_sink o.response c') (next _))

pub IsShrunk-refuse :
    {r : Relay} (a : ClientRelayActor) (h : ℕ) → IsCoherent r → IsShrunk r (refuse a h r)
unfolding refuse
IsShrunk-refuse {r} a h c =
    then-IsShrunk
      (IsShrunk-write (connection_of a "" h r.links)
        (safe_error "revoked" "Desktop channel authority mismatch" "cor_authorityclash") c)
      (IsShrunk-end_sink h)

pub IsShrunk-replace :
    {r : Relay} (k : String) (o : Option DesktopConnection)
    → IsCoherent r
    → IsShrunk r (replace_link k o r)
unfolding replace_link
IsShrunk-replace k none c = IsShrunk-refl c
IsShrunk-replace k (some d) c = then-IsShrunk (IsShrunk-write d _ c) (λ c1.
    then-IsShrunk (IsShrunk-end_sink d.response c1) (λ c2.
      then-IsShrunk (IsShrunk-desktop_routes k (some d.fence) c2) (λ c3. IsShrunk-desktop k _ c3)))

pub IsShrunk-revoke_desktop :
    {r : Relay} (k i : String) → IsCoherent r → IsShrunk r (revoke_desktop k i r)
unfolding revoke_desktop
IsShrunk-revoke_desktop {r} k i c = elim (Option-cases (Map.get k r.desktops)) [
  | inl n ↦
      rw (n, revoke_desktop)
        (then-IsShrunk (IsShrunk-desktop_routes k none c) (λ c1. IsShrunk-rates _ c1))
  | inr (d, n) ↦
      rw (n, revoke_desktop)
        (then-IsShrunk (IsShrunk-write d _ c) (λ c1.
          then-IsShrunk (IsShrunk-end_sink d.response c1) (λ c2.
            then-IsShrunk (IsShrunk-desktop k _ c2) (λ c3.
              then-IsShrunk (IsShrunk-desktop_routes k (some d.fence) c3)
                (λ c4. IsShrunk-rates _ c4)))))
]

pub IsShrunk-revoke_link :
    {r : Relay} (i : String) (d : DesktopConnection) → IsCoherent r → IsShrunk r (revoke_link i d r)
unfolding revoke_link
IsShrunk-revoke_link i d c = then-IsShrunk (IsShrunk-write d _ c) (λ c1.
    then-IsShrunk (IsShrunk-end_sink d.response c1) (λ c2.
      then-IsShrunk (IsShrunk-desktop d.device_id _ c2)
        (IsShrunk-desktop_routes d.device_id (some d.fence))))

pub IsShrunk-revoke_links :
    (e i : String) (ds : List DesktopConnection) {r : Relay}
    → IsCoherent r
    → IsShrunk r (revoke_links e i ds r)
unfolding revoke_links
IsShrunk-revoke_links e i [] c = IsShrunk-refl c
IsShrunk-revoke_links e i (d ∷ ds) c = elim (Bool-cases (is_admitted_by e d.authority)) [
  | inl a ↦ rw a (then-IsShrunk (IsShrunk-revoke_link i d c) (IsShrunk-revoke_links e i ds))
  | inr a ↦ rw a (IsShrunk-revoke_links e i ds c)
]

pub IsShrunk-revoke_executor :
    {r : Relay} (e i : String) → IsCoherent r → IsShrunk r (revoke_executor e i r)
unfolding revoke_executor
IsShrunk-revoke_executor {r} e i c =
    then-IsShrunk (IsShrunk-revoke_links e i (Map.values r.desktops) c) (IsShrunk-fence_executor e)
