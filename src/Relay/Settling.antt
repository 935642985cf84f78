-- ===== src/Relay/Settling.antt =====
-- Timers, acceptances, refusals and outputs keep the relay sound.
use kazibee_home.Prelude.{
  ℕ, String, ◌==◌, str_eq, Bool, true, false, ◌||◌, Option, none, some, ◌≡◌, ◌∙◌, refl, ap, arith,
  Bool-cases, Option-cases, inl, inr, subst, ==_iff,
}
use kazibee_home.Prelude.Map
use kazibee_home.Prelude.Map.{Map}
use kazibee_home.Relay.State.{
  Relay, Route, PendingAccept, DesktopConnection, OutboundFrame, Outcome, OwnerEvent, remove_route,
  resolve, accept_timeout, accepted,
}
use kazibee_home.Relay.Coherence.Operations.{
  then-IsShrunk, IsShrunk-write, IsShrunk-desktop_routes, IsShrunk-end_sink,
}
use kazibee_home.Relay.Routing.{
  is_acceptance, after_write, refuse_route, expire, accept, route_output, pass_output, receive,
  route_for, is_terminal,
}
use kazibee_home.Relay.Coherence.{IsCoherent, IsKnown}
use kazibee_home.Relay.Coherence.Removal.{same_route, keep_answer, keep_accept}
use kazibee_home.Relay.Coherence.Shrinking.{
  IsShrunk, IsShrunk-refl, IsShrunk-trans, IsShrunk-remove, keep-IsKnown, IsShrunk-desktop,
}
use kazibee_home.Relay.Sound.{IsSound, shrunk-IsSound}

-- A known route that the index holds under a promise's key is the promise's.
pub promised :
    (r : Relay) (c : IsCoherent r) (k : String) (p : PendingAccept)
    → Map.get k r.pending ≡ some p
    → (p.route.command_id ≡ k) × IsKnown p.route r
promised r c k p e =
    let held = c.waiting k p e in
    ((c.commands k p.route held).0, λ j u f s. same_route r c j k u p.route f held s)

pub answer-IsSound :
    {r s : Relay} (ticket : ℕ) (o : Outcome)
    → IsSound r
    → IsShrunk r s
    → IsCoherent (resolve ticket o s)
    → IsSound (resolve ticket o s)
answer-IsSound ticket o v h c =
    let w = shrunk-IsSound v h in
    record {
      coherent = c;
      few_commands = w.few_commands;
      few_pending = w.few_pending;
      few_desktops = w.few_desktops;
      few_of_device = w.few_of_device;
      keyed = w.keyed;
    }

-- A promise that waits is taken out with its route, and answered.
pub answered-IsSound :
    (r : Relay) (k : String) (p : PendingAccept) (o : Outcome)
    → IsSound r
    → Map.get k r.pending ≡ some p
    → IsSound (resolve p.route.serial o (remove_route p.route none r))
answered-IsSound r k p o v e =
    let (own, known) = promised r v.coherent k p e in
    answer-IsSound p.route.serial o v (IsShrunk-remove p.route none v.coherent known) (
      keep_answer r v.coherent p.route p o
        (ap (λ i. Map.get i r.by_command) own ∙ v.coherent.waiting k p e)
        (ap (λ i. Map.get i r.pending) own ∙ e))

pub expire-IsSound : (k : String) (n : ℕ) (r : Relay) → IsSound r → IsSound (expire k n r)
unfolding expire
expire-IsSound k n r v = elim (Option-cases (Map.get k r.pending)) [
  | inl e ↦ rw (e, expire) v
  | inr (p, e) ↦ elim (Bool-cases (p.route.serial == n)) [
    | inr d ↦ rw (e, expire, d) v
    | inl d ↦
        rw (e, expire, d)
          (subst (λ i. IsSound (resolve i accept_timeout (remove_route p.route none r)))
            ((==_iff p.route.serial n).0 d) (answered-IsSound r k p accept_timeout v e))
  ]
]

pub refuse-IsSound :
    (t : Route) (o : Outcome) (r : Relay) → IsKnown t r → IsSound r → IsSound (refuse_route t o r)
unfolding refuse_route
refuse-IsSound t o r known v = elim (Option-cases (Map.get t.command_id r.pending)) [
  | inl e ↦ rw e v
  | inr (p, e) ↦ elim (Bool-cases (p.route.serial == t.serial)) [
    | inr d ↦ rw (e, d) v
    | inl d ↦
        let same : p.route ≡ t =
          known t.command_id p.route (v.coherent.waiting t.command_id p e)
            ((==_iff p.route.serial t.serial).0 d) in
        rw (e, d)
          (subst (λ u. IsSound (resolve u.serial o (remove_route u none r))) same
            (answered-IsSound r t.command_id p o v e))
  ]
]

pub accept-IsSound :
    (e : String) (f : OutboundFrame) (r : Relay) → IsSound r → IsSound (accept e f r).1
unfolding accept
accept-IsSound e f r v = elim (Option-cases f.command_id) [
  | inl n ↦ rw (n, accept) v
  | inr (k, n) ↦ elim (Option-cases (Map.get k r.pending)) [
    | inl m ↦ rw (n, accept, m) v
    | inr (p, m) ↦ elim (Bool-cases (is_acceptance e f p.route)) [
      | inr d ↦ rw (n, accept, m, d) v
      | inl d ↦
          rw (n, accept, m, d)
            (record {
              coherent = keep_accept r v.coherent k p (accepted f) m;
              few_commands = v.few_commands;
              few_pending = omega (arith, v.few_pending, Map.size-delete-le k r.pending);
              few_desktops = v.few_desktops;
              few_of_device = v.few_of_device;
              keyed = v.keyed;
            })
    ]
  ]
]

pub after_write-IsShrunk :
    (f : OutboundFrame) (t : Route) (d : DesktopConnection) (r : Relay) (p : Bool × Relay)
    → IsShrunk r p.1
    → IsKnown t r
    → IsShrunk r (after_write f t d p).1
unfolding after_write
after_write-IsShrunk f t d r (false, s) h known = then-IsShrunk h (λ c1.
    then-IsShrunk (IsShrunk-end_sink d.response c1) (λ c2.
      then-IsShrunk (IsShrunk-desktop t.device_id _ c2)
        (IsShrunk-desktop_routes t.device_id (some t.desktop_fence))))
after_write-IsShrunk f t d r (true, s) h known = elim (Bool-cases (is_terminal f.kind)) [
  | inr e ↦ rw e h
  | inl e ↦ rw e (IsShrunk-trans h (IsShrunk-remove t none h.coherent (keep-IsKnown t h known)))
]

-- The route that an output is for is in the index.
pub route_for-IsKnown :
    (f : OutboundFrame) (r : Relay) (c : IsCoherent r) (t : Route)
    → route_for f r ≡ some t
    → IsKnown t r
route_for-IsKnown f r c t e = by_id f.command_id refl
  where
    by_command : (k : String) → Map.get k r.by_command ≡ some t → IsKnown t r
    by_command k held = λ j u g s. same_route r c j k u t g held s

    by_correlation : (k : String) → Map.get k r.by_correlation ≡ some t → IsKnown t r
    by_correlation k held = by_command t.command_id (c.correlations k t held).1

    by_id : (o : Option String) → o ≡ f.command_id → IsKnown t r
    by_id none n = by_correlation f.correlation_id (rw (← n) at e)
    by_id (some k) n = elim (Bool-cases (str_eq k "")) [
      | inl b ↦ by_correlation f.correlation_id (rw (← n, b) at e)
      | inr b ↦ by_command k (rw (← n, b) at e)
    ]

pub output-IsShrunk :
    (i : String) (f : OutboundFrame) (r : Relay) → IsCoherent r → IsShrunk r (route_output i f r).1
unfolding route_output pass_output
output-IsShrunk i f r c = elim (Option-cases (route_for f r)) [
  | inl n ↦ rw (n, route_output) (IsShrunk-refl c)
  | inr (t, n) ↦
      let known = route_for-IsKnown f r c t n in
      elim (Bool-cases (str_eq t.executor_id i)) [
        | inr a ↦ rw (n, route_output, a) (IsShrunk-refl c)
        | inl a ↦ elim (Option-cases (Map.get t.device_id r.desktops)) [
          | inl m ↦ rw (n, route_output, a, m) (IsShrunk-remove t none c known)
          | inr (d, m) ↦ elim (Bool-cases (str_eq d.fence t.desktop_fence)) [
            | inr b ↦ rw (n, route_output, a, m, b) (IsShrunk-remove t none c known)
            | inl b ↦
                rw (n, route_output, a, m, b)
                  (after_write-IsShrunk f t d r _ (IsShrunk-write d (OwnerEvent.output f) c) known)
          ]
        ]
      ]
]

pub receive-IsSound :
    (i : String) (f : OutboundFrame) (r : Relay) → IsSound r → IsSound (receive i f r).1
unfolding receive
receive-IsSound i f r v =
    elim (Bool-cases (str_eq f.kind "channel.hello" || str_eq f.kind "channel.heartbeat")) [
      | inl e ↦ rw e v
      | inr e ↦ elim (Bool-cases (str_eq f.kind "command.accepted")) [
        | inl a ↦ rw (e, a) (accept-IsSound i f r v)
        | inr a ↦ rw (e, a) (shrunk-IsSound v (output-IsShrunk i f r v.coherent))
      ]
    ]
