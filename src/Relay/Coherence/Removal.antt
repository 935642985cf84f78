-- ===== src/Relay/Coherence/Removal.antt =====
-- Coherence of the relay's tables under `removeRoute` and under the answer of a promise.
use kazibee_home.Prelude.{
  ℕ, String, ◌<◌, str_eq, eq_iff, false, Option, none, some, ◌≡◌, ◌∙◌, sym, ap, inl, inr, arith,
  Bool-cases, Option-cases, ◌≢◌,
}
use kazibee_home.Prelude.Map
use kazibee_home.Relay.State.{Relay, Route, PendingAccept, Outcome, remove_route, resolve}
use kazibee_home.Relay.Coherence.{
  IsCoherent, answered, drop_route, drop_tables, remove_route-held, get_of_delete, get-delete_other,
}

module _ (r : Relay) (c : IsCoherent r) where
  -- Two routes of the index with one identity are one route, at one key.
  pub same_route :
      (k j : String) (t u : Route)
      → Map.get k r.by_command ≡ some t
      → Map.get j r.by_command ≡ some u
      → t.serial ≡ u.serial
      → t ≡ u
  same_route k j t u e f s =
      let at_one : k ≡ j = c.identity k j t u e f s in ground (arith, rw at_one at e, f)

  pub keep_resolve :
      (ticket : ℕ) (outcome : Outcome)
      → answered ticket r.answers ≡ 0
      → ticket < r.routed
      → ((k : String) (p : PendingAccept) → Map.get k r.pending ≡ some p → p.route.serial ≢ ticket)
      → IsCoherent (resolve ticket outcome r)
  unfolding answered
  keep_resolve ticket outcome zero_times old settled = record {
    commands = c.commands;
    correlations = c.correlations;
    waiting = c.waiting;
    identity = c.identity;
    numbered = c.numbered;
    unanswered = λ k p e. ground (arith, settled k p e, c.unanswered k p e);
    once = λ t. ground (arith, zero_times, c.once t);
    unique = c.unique;
    unused = λ t h. ground (arith, c.unused t h, old);
  }

module _ (r : Relay) (c : IsCoherent r) where
  module _ (t : Route) (held : Map.get t.command_id r.by_command ≡ some t) where
    other_key :
        (k : String) (u : Route)
        → Map.get k r.by_command ≡ some u
        → str_eq t.command_id k ≡ false
        → str_eq t.correlation_id u.correlation_id ≡ false
    other_key k u e d = elim (Bool-cases (str_eq t.correlation_id u.correlation_id)) [
      | inr f ↦ f
      | inl f ↦
          let ids : t.correlation_id ≡ u.correlation_id =
            (eq_iff t.correlation_id u.correlation_id).0 f in
          let a = (c.commands t.command_id t held).1 in
          let b = c.commands k u e in
          let same : some t ≡ some u = sym a ∙ (ap (λ i. Map.get i r.by_correlation) ids ∙ b.1) in
          ground (arith, same, b.0, d, eq_iff t.command_id k)
    ]

    pub drop_tables-IsCoherent : IsCoherent (drop_tables t r)
    unfolding drop_tables
    drop_tables-IsCoherent = record {
      commands = λ k u e.
          let (d, f) = get_of_delete t.command_id k u r.by_command e in
          let b = c.commands k u f in
          (
            b.0,
            get-delete_other t.correlation_id u.correlation_id r.by_correlation (other_key k u f d)
                ∙ b.1,
          );
      correlations = λ k u e.
          let (d, f) = get_of_delete t.correlation_id k u r.by_correlation e in
          let b = c.correlations k u f in
          (
            b.0,
            get-delete_other t.command_id u.command_id r.by_command (other_command k u d b) ∙ b.1,
          );
      waiting = λ k p e.
          let (d, f) = get_of_delete t.command_id k p r.pending e in
          get-delete_other t.command_id k r.by_command d ∙ c.waiting k p f;
      identity = λ k j u v e f s.
          c.identity k j u v (get_of_delete t.command_id k u r.by_command e).1
            (get_of_delete t.command_id j v r.by_command f).1 s;
      numbered = λ k u e. c.numbered k u (get_of_delete t.command_id k u r.by_command e).1;
      unanswered = λ k p e. c.unanswered k p (get_of_delete t.command_id k p r.pending e).1;
      once = c.once;
      unique = Map.delete-IsUnique t.command_id r.by_command c.unique;
      unused = c.unused;
    }
      where
        other_command :
            (k : String) (u : Route)
            → str_eq t.correlation_id k ≡ false
            → (u.correlation_id ≡ k) × (Map.get u.command_id r.by_command ≡ some u)
            → str_eq t.command_id u.command_id ≡ false
        other_command k u d b = elim (Bool-cases (str_eq t.command_id u.command_id)) [
          | inr f ↦ f
          | inl f ↦
              let ids : t.command_id ≡ u.command_id = (eq_iff t.command_id u.command_id).0 f in
              let same : some t ≡ some u =
                sym held ∙ (ap (λ i. Map.get i r.by_command) ids ∙ b.1) in
              ground (arith, same, b.0, d, eq_iff t.correlation_id k)
        ]

    -- No other promise waits for the route's identity.
    pub settled :
        (k : String) (p : PendingAccept)
        → Map.get k (drop_tables t r).pending ≡ some p
        → p.route.serial ≢ t.serial
    unfolding drop_tables
    settled k p e s =
        let (d, f) = get_of_delete t.command_id k p r.pending e in
        let at_one : k ≡ t.command_id =
          c.identity k t.command_id p.route t (c.waiting k p f) held s in
        ground (arith, at_one, d, eq_iff t.command_id k)

    pub drop_route-IsCoherent : (result : Option Outcome) → IsCoherent (drop_route t result r)
    unfolding drop_route drop_tables
    drop_route-IsCoherent none = elim (Option-cases (Map.get t.command_id r.pending)) [
      | inl n ↦ rw n drop_tables-IsCoherent
      | inr (p, e) ↦ rw e drop_tables-IsCoherent
    ]
    drop_route-IsCoherent (some outcome) = elim (Option-cases (Map.get t.command_id r.pending)) [
      | inl n ↦ rw n drop_tables-IsCoherent
      | inr (p, e) ↦
          let same : p.route ≡ t = ground (arith, c.waiting t.command_id p e, held) in
          rw e (
            keep_resolve (drop_tables t r) drop_tables-IsCoherent t.serial outcome
              (ap (λ (u : Route). answered u.serial r.answers) (sym same)
                ∙ c.unanswered t.command_id p e)
              (c.numbered t.command_id t held) settled)
    ]

-- A promise that waits is taken out with its route, and answered.
pub keep_answer :
    (r : Relay) (c : IsCoherent r) (t : Route) (p : PendingAccept) (outcome : Outcome)
    → Map.get t.command_id r.by_command ≡ some t
    → Map.get t.command_id r.pending ≡ some p
    → IsCoherent (resolve t.serial outcome (remove_route t none r))
unfolding drop_route drop_tables
keep_answer r c t p outcome held e =
    let same : p.route ≡ t = ground (arith, c.waiting t.command_id p e, held) in
    let kept = drop_tables-IsCoherent r c t held in
    rw
      (remove_route-held r t c (λ k u f s. same_route r c k t.command_id u t f held s) none held, e)
      (keep_resolve (drop_tables t r) kept t.serial outcome
        (ap (λ (u : Route). answered u.serial r.answers) (sym same) ∙ c.unanswered t.command_id p e)
        (c.numbered t.command_id t held) (settled r c t held))

-- A promise that is accepted waits no longer, while its route stays.
pub keep_accept :
    (r : Relay) (c : IsCoherent r) (k : String) (p : PendingAccept) (outcome : Outcome)
    → Map.get k r.pending ≡ some p
    → IsCoherent (resolve p.route.serial outcome (record r { pending = Map.delete k r.pending }))
keep_accept r c k p outcome e =
    keep_resolve (record r { pending = Map.delete k r.pending })
      (record {
        commands = c.commands;
        correlations = c.correlations;
        waiting = λ j q f. c.waiting j q (get_of_delete k j q r.pending f).1;
        identity = c.identity;
        numbered = c.numbered;
        unanswered = λ j q f. c.unanswered j q (get_of_delete k j q r.pending f).1;
        once = c.once;
        unique = c.unique;
        unused = c.unused;
      })
      p.route.serial outcome (c.unanswered k p e) (c.numbered k p.route (c.waiting k p e))
      (λ j q f s.
        let (d, g) = get_of_delete k j q r.pending f in
        let at_one : j ≡ k = c.identity j k q.route p.route (c.waiting j q g) (c.waiting k p e) s in
        ground (arith, at_one, d, eq_iff k j))
