-- ===== src/Relay/Coherence.antt =====
-- The tables of the relay and the promises of its commands, and how a route is found in them.
pub mod Removal
pub mod Shrinking
pub mod Operations
use kazibee_home.Prelude.{
  ℕ, String, ◌+◌, ◌≤◌, ◌<◌, ◌==◌, str_eq, eq_iff, if◌then◌else◌, Bool, true, false, Option, none,
  some, List, [], ◌∷◌, ◌≡◌, ◌∙◌, refl, sym, ap, ◌⊎◌, inl, inr, arith, Bool-cases, Option-cases,
  is_some, ==_refl,
}
use kazibee_home.Prelude.Map
use kazibee_home.Prelude.Map.{Map, IsUnique}
use kazibee_home.Sse.{Sink}
use kazibee_home.Relay.State.{
  Relay, Route, PendingAccept, Rate, DesktopConnection, CloseCallback, OwnerEvent, Outcome,
  remove_route, unindex, is_route, is_pending_of, resolve, resolve_with,
}

-- How often a promise was resolved.
unfoldable pub answered : ℕ → List (ℕ × Outcome) → ℕ
answered t [] = 0
answered t ((u, x) ∷ xs) = (if u == t then 1 else 0) + answered t xs

-- The two indexes hold the same routes under their own ids, each promise that waits belongs to a
-- route of the index, identities are used once, and no promise is resolved twice or while it waits.
pub record IsCoherent (r : Relay) : Type 0 where
  pub commands :
      (k : String) (t : Route)
      → Map.get k r.by_command ≡ some t
      → (t.command_id ≡ k) × (Map.get t.correlation_id r.by_correlation ≡ some t)
  pub correlations :
      (k : String) (t : Route)
      → Map.get k r.by_correlation ≡ some t
      → (t.correlation_id ≡ k) × (Map.get t.command_id r.by_command ≡ some t)
  pub waiting :
      (k : String) (p : PendingAccept)
      → Map.get k r.pending ≡ some p
      → Map.get k r.by_command ≡ some p.route
  pub identity :
      (k j : String) (t u : Route)
      → Map.get k r.by_command ≡ some t
      → Map.get j r.by_command ≡ some u
      → t.serial ≡ u.serial
      → k ≡ j
  pub numbered : (k : String) (t : Route) → Map.get k r.by_command ≡ some t → t.serial < r.routed
  pub unanswered :
      (k : String) (p : PendingAccept)
      → Map.get k r.pending ≡ some p
      → answered p.route.serial r.answers ≡ 0
  pub once : (t : ℕ) → answered t r.answers ≤ 1
  pub unique : IsUnique r.by_command
  pub unused : (t : ℕ) → r.routed ≤ t → answered t r.answers ≡ 0

-- A route that the index may hold: what it holds under its identity is this very route.
abbrev pub IsKnown : Route → Relay → Type 0
IsKnown t r =
    (k : String) (u : Route) → Map.get k r.by_command ≡ some u → u.serial ≡ t.serial → u ≡ t

-- The predicate does not read the links, their rates and their sinks.
pub keep_quiet :
    {r : Relay} (ds : Map DesktopConnection) (rs : Map Rate) (ss : List (Sink OwnerEvent))
    (cs : List CloseCallback) (n : ℕ)
    → IsCoherent r
    → IsCoherent (record r { desktops = ds; rates = rs; sinks = ss; callbacks = cs; links = n })
keep_quiet ds rs ss cs n c = record {
  commands = c.commands;
  correlations = c.correlations;
  waiting = c.waiting;
  identity = c.identity;
  numbered = c.numbered;
  unanswered = c.unanswered;
  once = c.once;
  unique = c.unique;
  unused = c.unused;
}

pub get_of_delete :
    {V : Type 0} (c k : String) (v : V) (m : Map V)
    → Map.get k (Map.delete c m) ≡ some v
    → (str_eq c k ≡ false) × (Map.get k m ≡ some v)
get_of_delete c k v m e = elim (Bool-cases (str_eq c k)) [
  | inl d ↦ absurd (not_both (rw (Map.get-delete c k m, d) at e))
  | inr d ↦ (d, rw (Map.get-delete c k m, d) at e)
]
  where
    not_both : {V : Type 0} {v : V} → none ≡ some v → ⊥
    not_both e = cc

pub get-delete_other :
    {V : Type 0} (c k : String) (m : Map V)
    → str_eq c k ≡ false
    → Map.get k (Map.delete c m) ≡ Map.get k m
get-delete_other c k m d = rw (Map.get-delete c k m, d) refl

pub delete_absent : {V : Type 0} (k : String) (m : Map V) → Map.get k m ≡ none → Map.delete k m ≡ m
unfolding Map.delete Map.get
delete_absent k [] e = refl
delete_absent k ((j, v) ∷ m) e = elim (Bool-cases (str_eq j k)) [
  | inl d ↦ absurd (some_none (rw d at e))
  | inr d ↦ rw (d, delete_absent k m (rw d at e)) refl
]
  where
    some_none : {V : Type 0} {v : V} → some v ≡ none → ⊥
    some_none e = cc

-- A route that the index holds, taken out of the three tables.
unfoldable pub drop_tables : Route → Relay → Relay
drop_tables t r = record r {
  by_command = Map.delete t.command_id r.by_command;
  by_correlation = Map.delete t.correlation_id r.by_correlation;
  pending = Map.delete t.command_id r.pending;
}

unfoldable pub drop_route : Route → Option Outcome → Relay → Relay
unfolding drop_tables
drop_route t result r =
    if is_some (Map.get t.command_id r.pending)
    then resolve_with t.serial result (drop_tables t r)
    else drop_tables t r

self_false : (n : ℕ) → (n == n) ≡ false → ⊥
self_false n h = cc (==_refl n)

module _ (r : Relay) (t : Route) (c : IsCoherent r) (known : IsKnown t r) where
  -- The route is in the index, or nothing of its identity is in any table.
  is_route-command :
      (u : Route)
      → Map.get t.command_id r.by_command ≡ some u
      → (u.serial == t.serial) ≡ true
      → u ≡ t
  is_route-command u e s = known t.command_id u e (ground arith)

  absent_correlation :
      is_route t (Map.get t.command_id r.by_command) ≡ false
      → is_route t (Map.get t.correlation_id r.by_correlation) ≡ false
  absent_correlation h = elim (Option-cases (Map.get t.correlation_id r.by_correlation)) [
    | inl n ↦ rw n refl
    | inr (v, e) ↦ elim (Bool-cases (v.serial == t.serial)) [
      | inr d ↦ rw e d
      | inl d ↦
          let f = c.correlations t.correlation_id v e in
          let same : v ≡ t = known v.command_id v f.1 (ground arith) in
          let held : Map.get t.command_id r.by_command ≡ some t = rw same at f.1 in
          absurd (self_false t.serial (rw held at h))
    ]
  ]

  absent_pending :
      is_route t (Map.get t.command_id r.by_command) ≡ false
      → is_pending_of t (Map.get t.command_id r.pending) ≡ false
  absent_pending h = elim (Option-cases (Map.get t.command_id r.pending)) [
    | inl n ↦ rw n refl
    | inr (p, e) ↦ rw e (rw (c.waiting t.command_id p e) at h)
  ]

  -- A route of the index leaves all three tables.
  pub remove_route-held :
      (result : Option Outcome)
      → Map.get t.command_id r.by_command ≡ some t
      → remove_route t result r ≡ drop_route t result r
  unfolding remove_route unindex drop_route drop_tables
  remove_route-held result held =
      let first : is_route t (Map.get t.command_id r.by_command) ≡ true =
        rw held (==_refl t.serial) in
      let second : is_route t (Map.get t.correlation_id r.by_correlation) ≡ true =
        rw ((c.commands t.command_id t held).1) (==_refl t.serial) in
      elim (Option-cases (Map.get t.command_id r.pending)) [
        | inl n ↦ rw (first, second, n, delete_absent t.command_id r.pending n) refl
        | inr (p, e) ↦
            let same : p.route ≡ t = ground (arith, c.waiting t.command_id p e, held) in
            let third : is_pending_of t (Map.get t.command_id r.pending) ≡ true =
              rw e (rw same (==_refl t.serial)) in
            rw (first, second, third, e) refl
      ]

module _ (r : Relay) (t : Route) (c : IsCoherent r) (known : IsKnown t r) where
  -- `removeRoute` of a route that is gone does nothing.
  pub remove_route-cases :
      (result : Option Outcome)
      → (remove_route t result r ≡ r)
        ⊎ ((Map.get t.command_id r.by_command ≡ some t)
            × (remove_route t result r ≡ drop_route t result r))
  unfolding remove_route unindex
  remove_route-cases result = elim (Bool-cases (is_route t (Map.get t.command_id r.by_command))) [
    | inr h ↦ inl (rw (h, absent_correlation r t c known h, absent_pending r t c known h) refl)
    | inl h ↦ elim (Option-cases (Map.get t.command_id r.by_command)) [
      | inl n ↦ absurd (none_route (rw n at h))
      | inr (u, e) ↦
          let same : u ≡ t = is_route-command r t c known u e (rw e at h) in
          let held : Map.get t.command_id r.by_command ≡ some t = rw same at e in
          inr (held, remove_route-held r t c known result held)
    ]
  ]
    where
      none_route : false ≡ true → ⊥
      none_route e = cc
