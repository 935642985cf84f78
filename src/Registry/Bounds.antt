-- ===== src/Registry/Bounds.antt =====
-- The tables of the registry after any run of its operations: their keys and their sizes.
pub mod Tables
use kazibee_home.Prelude.{
  ℕ, String, suc, ◌-◌, ◌≤◌, ◌==◌, ltb, leb, if◌then◌else◌, Bool, true, false, ◌&&◌, ◌||◌, Option,
  none, some, List, [], ◌∷◌, ◌≡◌, refl, arith, Bool-cases, Option-cases, inl, inr, str_eq,
}
use kazibee_home.Prelude.Map
use kazibee_home.Prelude.Map.{Map, IsUnique}
use kazibee_home.Json.{Json}
use kazibee_home.Registry.Streams.{Frame, Stream, write, end_stream}
use Tables.{
  IsBounded, keep_prune_pending, keep_prune_stale, keep_mark_stale, keep_hello, keep_drop,
  keep_forget_hello, keep_forget_stale, keep_set, keep_streams, keep_take_over,
}
use kazibee_home.Registry.Takeover.{acknowledge-cases, written}
use kazibee_home.Registry.{
  Connection, Registry, PendingHello, empty, hello, open_connection, touch, close, revoke, presence,
  dispatch, matches, deliver, ExecutorPresence, DispatchResult, acknowledge, online, stale, offline,
  stale_after_ms, take_over, write_to, notify_disconnected, prune_pending, prune_stale, mark_stale,
  prune_hellos, prune_tombstones, evict, max_pending_hellos, max_stale_tombstones,
}

pub data Operation : Type 0 where
  hello_op : ℕ → String → ℕ → String → Operation
  open_op : ℕ → String → String → String → ℕ → ℕ → Operation
  touch_op : ℕ → String → ℕ → Operation
  close_op : String → Option String → Operation
  revoke_op : String → String → Operation
  presence_op : ℕ → String → Operation
  dispatch_op : ℕ → String → Json → Operation
  matches_op : ℕ → String → String → ℕ → Operation

unfoldable pub apply : Operation → Registry → Registry
apply (hello_op now e g i) r = hello now e g i r
apply (open_op now f e d g h) r = (open_connection now f e d g h r).1
apply (touch_op now e g) r = (touch now e g r).1
apply (close_op e f) r = close e f r
apply (revoke_op e i) r = revoke e i r
apply (presence_op now e) r = (presence now e r).1
apply (dispatch_op now e f) r = (dispatch now e f r).1
apply (matches_op now e d g) r = (matches now e d g r).1

unfoldable pub apply_all : List Operation → Registry → Registry
apply_all [] r = r
apply_all (o ∷ os) r = apply_all os (apply o r)

keep_touch :
    (now : ℕ) (e : String) (g : ℕ) (r : Registry) → IsBounded r → IsBounded (touch now e g r).1
unfolding touch
keep_touch now e g r b = elim (Option-cases (Map.get e r.connections)) [
  | inl n ↦ rw (n, touch) b
  | inr (c, n) ↦ elim (Bool-cases (c.generation == g)) [
    | inl d ↦ rw (n, touch, d) (keep_set e _ r b)
    | inr d ↦ rw (n, touch, d) b
  ]
]

keep_revoke : (e i : String) (r : Registry) → IsBounded r → IsBounded (revoke e i r)
unfolding revoke write_to notify_disconnected
keep_revoke e i r b =
    let b' = keep_forget_stale e _ (keep_forget_hello e r b) in
    elim (Option-cases (Map.get e r.connections)) [
      | inl n ↦ rw (n, revoke) b'
      | inr (c, n) ↦ rw (n, revoke) (keep_drop e _ _ _ b')
    ]

keep_presence : (now : ℕ) (e : String) (r : Registry) → IsBounded r → IsBounded (presence now e r).1
unfolding presence notify_disconnected prune_pending prune_stale
keep_presence now e r b =
    let b' = keep_prune_stale now _ (keep_prune_pending now r b) in
    elim (Option-cases (Map.get e r.connections)) [
      | inl n ↦ rw (n, presence) b'
      | inr (c, n) ↦ elim (Bool-cases (ltb stale_after_ms (now - c.last_activity_ms))) [
        | inl d ↦
            rw (n, presence, d)
              (keep_streams _ _ _ (
                keep_mark_stale e now _
                  (keep_drop e _ r.disconnected (end_stream c.response r.streams) b')))
        | inr d ↦ rw (n, presence, d) b'
      ]
    ]

keep_deliver :
    (e : String) (f : Json) (c : Connection) (p : ExecutorPresence × Registry)
    → IsBounded p.1
    → IsBounded (deliver e f c p).1
unfolding deliver write_to notify_disconnected
keep_deliver e f c (online, r) b =
    elim (Bool-cases (write c.response (Frame.command f) r.streams).0) [
      | inl w ↦ rw (w, deliver) (keep_streams r _ _ b)
      | inr w ↦ rw (w, deliver) (keep_drop e r _ _ b)
    ]
keep_deliver e f c (stale, r) b = b
keep_deliver e f c (offline, r) b = b

keep_dispatch :
    (now : ℕ) (e : String) (f : Json) (r : Registry)
    → IsBounded r
    → IsBounded (dispatch now e f r).1
unfolding dispatch
keep_dispatch now e f r b = elim (Option-cases (Map.get e r.connections)) [
  | inl n ↦ rw (n, dispatch) b
  | inr (c, n) ↦ rw (n, dispatch) (keep_deliver e f c _ (keep_presence now e r b))
]

keep_matches :
    (now : ℕ) (e d : String) (g : ℕ) (r : Registry)
    → IsBounded r
    → IsBounded (matches now e d g r).1
unfolding matches
keep_matches now e d g r b = elim (Option-cases (Map.get e r.connections)) [
  | inl n ↦ rw (n, matches) b
  | inr (c, n) ↦ elim (Bool-cases (str_eq c.device_id d && c.generation == g)) [
    | inl m ↦ rw (n, matches, m) (keep_presence now e r b)
    | inr m ↦ rw (n, matches, m) b
  ]
]

keep_open :
    (now : ℕ) (f e d : String) (g h : ℕ) (r : Registry)
    → IsBounded r
    → IsBounded (open_connection now f e d g h r).1
unfolding open_connection written write_to
keep_open now f e d g h r b =
    let c : Connection = record {
      fence = f;
      executor_id = e;
      device_id = d;
      generation = g;
      response = h;
      last_activity_ms = now;
    } in
    let opened =
      keep_set e c _ (keep_take_over e _ (keep_prune_stale now _ (keep_prune_pending now r b))) in
    acknowledge-cases now c _ IsBounded opened
      (λ i. keep_streams _ _ _ (keep_forget_hello e _ opened))
      (λ i. keep_drop e _ _ _ (keep_forget_hello e _ opened))

keep_closed : (e : String) (r : Registry) → IsBounded r → IsBounded (close e none r)
unfolding close notify_disconnected
keep_closed e r b = elim (Option-cases (Map.get e r.connections)) [
  | inl n ↦ rw (n, close) b
  | inr (c, n) ↦ rw (n, close) (keep_drop e _ _ _ (keep_forget_stale e _ (keep_forget_hello e r b)))
]

keep_close : (e : String) (f : Option String) (r : Registry) → IsBounded r → IsBounded (close e f r)
unfolding close notify_disconnected
keep_close e none r b = keep_closed e r b
keep_close e (some f) r b = elim (Option-cases (Map.get e r.connections)) [
  | inl n ↦ rw (n, close) b
  | inr (c, n) ↦ elim (Bool-cases (str_eq f "" || str_eq c.fence f)) [
    | inl m ↦ rw (n, close, m) (keep_drop e _ _ _ (keep_forget_stale e _ (keep_forget_hello e r b)))
    | inr m ↦ rw (n, close, m) b
  ]
]

keep_apply : (o : Operation) (r : Registry) → IsBounded r → IsBounded (apply o r)
unfolding apply
keep_apply (hello_op now e g i) r b = keep_hello now e g i r b
keep_apply (open_op now f e d g h) r b = keep_open now f e d g h r b
keep_apply (touch_op now e g) r b = keep_touch now e g r b
keep_apply (close_op e f) r b = keep_close e f r b
keep_apply (revoke_op e i) r b = keep_revoke e i r b
keep_apply (presence_op now e) r b = keep_presence now e r b
keep_apply (dispatch_op now e f) r b = keep_dispatch now e f r b
keep_apply (matches_op now e d g) r b = keep_matches now e d g r b

keep_apply_all : (os : List Operation) (r : Registry) → IsBounded r → IsBounded (apply_all os r)
unfolding apply_all
keep_apply_all [] r b = b
keep_apply_all (o ∷ os) r b = keep_apply_all os (apply o r) (keep_apply o r b)

-- After any operations on a new registry, each executor has one connection at most, and there are
-- at most 1024 pending hellos and 1024 tombstones.
pub registry_in_bounds :
    (streams : List Stream) (os : List Operation) → IsBounded (apply_all os (empty streams))
unfolding empty
registry_in_bounds streams os =
    keep_apply_all os _
      (record { one_connection = tt; hellos = omega arith; tombstones = omega arith })
