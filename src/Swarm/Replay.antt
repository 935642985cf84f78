-- ===== src/Swarm/Replay.antt =====
-- The replay buffer: the frames that it holds, and what a reader that polls it gets.
use kazibee_home.Prelude.{
  ℕ, zero, suc, String, ◌+◌, ◌-◌, ◌≤◌, str_eq, if◌then◌else◌, not, ◌&&◌, ◌||◌, Option, none, some,
  List, [], ◌∷◌, ◌++◌, length, drop, min, ◌≡◌, subst, ◌∙◌, arith, Bool-cases, Option-cases, inl,
  inr, length-drop, length-append,
}
use kazibee_home.Json.{Json, prop, is_nullish}
use kazibee_home.Swarm.State.{
  swarm_event_limit, SwarmAttachment, HeadFrame, StoredFrame, HeadSocket, Machine, SwarmPresence,
  HeadRuntime, head_attachment, live_socket,
}
use kazibee_home.Swarm.Machine.{
  latest, append_frame, should_buffer, touch_presence, reject_frame, on_head_hello, on_head_frame,
  on_head_message, on_head_close, accept_head, send_frame, send_liveness, swarm_fetch, SwarmRequest,
  candidate_id, date_text,
}

-- The cursors count up by one from the first.
unfoldable pub IsCounted : ℕ → List StoredFrame → Type 0
IsCounted c [] = Unit {0}
IsCounted c (e ∷ es) = (e.cursor ≡ c) × IsCounted (c + 1) es

-- The buffer holds the last frames, up to 500 of them, and the newest has the machine's cursor.
pub record IsRecent (s : Machine) : Type 0 where
  pub few : length s.events ≤ swarm_event_limit
  pub all_or_full : min s.cursor swarm_event_limit ≡ length s.events
  pub counted : IsCounted (s.cursor + 1 - length s.events) s.events

IsCounted-append :
    (c : ℕ) (es : List StoredFrame) (e : StoredFrame)
    → IsCounted c es
    → e.cursor ≡ c + length es
    → IsCounted c (es ++ e ∷ [])
unfolding IsCounted
IsCounted-append c [] e h k = (omega (arith, k), tt)
IsCounted-append c (x ∷ es) e (h, hs) k = (h, IsCounted-append (c + 1) es e hs (omega (arith, k)))

pub IsCounted-drop :
    (n c d : ℕ) (es : List StoredFrame) → d ≡ c + n → IsCounted c es → IsCounted d (drop n es)
unfolding IsCounted
IsCounted-drop zero c d es e h = subst (λ k. IsCounted k es) (omega (arith, e)) h
IsCounted-drop (suc n) c d [] e h = tt
IsCounted-drop (suc n) c d (x ∷ es) e (h, hs) = IsCounted-drop n (c + 1) d es (omega (arith, e)) hs

append-IsRecent :
    (now : ℕ) (f : HeadFrame) (s : Machine) → IsRecent s → IsRecent (append_frame now f s)
unfolding append_frame latest
append-IsRecent now f s h =
    let e : StoredFrame = record { cursor = s.cursor + 1; received_at = now; frame = f } in
    let grown = s.events ++ e ∷ [] in
    let n = length grown - swarm_event_limit in
    let size : length grown ≡ length s.events + 1 = length-append s.events (e ∷ []) ∙ omega arith in
    let left = length-drop n grown in
    record {
      few = omega (arith, size, left, h.few);
      all_or_full = omega (arith, size, left, h.few, h.all_or_full);
      counted =
          IsCounted-drop n (s.cursor + 1 - length s.events) _ grown
            (omega (arith, size, left, h.few, h.all_or_full))
            (IsCounted-append (s.cursor + 1 - length s.events) s.events e h.counted
              (omega (arith, h.all_or_full)));
    }

-- The parts that the buffer has no part in.
same-IsRecent :
    (s : Machine) (ws : List HeadSocket) (n : ℕ) (p : Option SwarmPresence)
    → IsRecent s
    → IsRecent (record s { sockets = ws; next_handle = n; presence = p })
same-IsRecent s ws n p h = record { few = h.few; all_or_full = h.all_or_full; counted = h.counted }

module _ (rt : HeadRuntime) where
  reject-IsRecent : (h : ℕ) (s : Machine) → IsRecent s → IsRecent (reject_frame rt h s)
  unfolding reject_frame
  reject-IsRecent h s p = elim (Bool-cases (rt.send_throws h)) [
    | inl e ↦ rw (e, reject_frame) p
    | inr e ↦ rw (e, reject_frame) (same-IsRecent s _ _ _ p)
  ]

  frame-IsRecent :
      (now h : ℕ) (a : SwarmAttachment) (f : HeadFrame) (s : Machine)
      → IsRecent s
      → IsRecent (on_head_frame rt now h a f s)
  unfolding on_head_frame on_head_hello touch_presence
  frame-IsRecent now h a f s p = elim (Bool-cases (str_eq f.kind "head.hello")) [
    | inl e ↦ elim (Bool-cases (str_eq f.swarm_id a.swarm_id)) [
      | inl d ↦ rw (e, d, on_head_frame) (same-IsRecent s _ _ _ p)
      | inr d ↦ rw (e, d, on_head_frame) (reject-IsRecent h s p)
    ]
    | inr e ↦ elim (Bool-cases (should_buffer f.kind)) [
      | inl d ↦ rw (e, d, on_head_frame) (append-IsRecent now f _ (same-IsRecent s _ _ _ p))
      | inr d ↦ rw (e, d, on_head_frame) (same-IsRecent s _ _ _ p)
    ]
  ]

  message-IsRecent :
      (now h : ℕ) (m : String) (s : Machine) → IsRecent s → IsRecent (on_head_message rt now h m s)
  unfolding on_head_message
  message-IsRecent now h m s p = elim (Option-cases (head_attachment h s.sockets)) [
    | inl e ↦ rw (e, on_head_message) (same-IsRecent s _ _ _ p)
    | inr (a, e) ↦ elim (Option-cases (rt.parse_outbound m a.machine_id)) [
      | inl d ↦ rw (e, d, on_head_message) (reject-IsRecent h s p)
      | inr (f, d) ↦ rw (e, d, on_head_message) (frame-IsRecent now h a f s p)
    ]
  ]

  accept-IsRecent :
      (u i m : String) (s : Machine) → IsRecent s → IsRecent (accept_head rt u i m s).1
  unfolding accept_head
  accept-IsRecent u i m s p =
      elim (Bool-cases
        (str_eq i "" || not (rt.is_swarm_id i) || str_eq m "" || not (rt.is_machine_id m))) [
          | inl e ↦ rw (e, accept_head) p
          | inr e ↦ rw (e, accept_head) (same-IsRecent s _ _ _ p)
        ]

  send-IsRecent : (b : Option Json) (s : Machine) → IsRecent s → IsRecent (send_frame rt b s).1
  unfolding send_frame
  send-IsRecent none s p = p
  send-IsRecent (some frame) s p = elim (Option-cases (candidate_id s.presence frame)) [
    | inl e ↦ rw (e, send_frame) p
    | inr (id, e) ↦
        elim (Bool-cases (not (rt.is_machine_id id) || not (rt.accepts_inbound frame id))) [
          | inl d ↦ rw (e, d, send_frame) p
          | inr d ↦ elim (Option-cases (live_socket s.presence s.sockets)) [
            | inl l ↦ rw (e, d, l, send_frame) p
            | inr (w, l) ↦ elim (Bool-cases (rt.send_throws w.handle)) [
              | inl t ↦ rw (e, d, l, t, send_frame) p
              | inr t ↦ rw (e, d, l, t, send_frame) (same-IsRecent s _ _ _ p)
            ]
          ]
        ]
  ]

  liveness-IsRecent :
      (now : ℕ) (b : Option Json) (s : Machine) → IsRecent s → IsRecent (send_liveness rt now b s).1
  unfolding send_liveness
  liveness-IsRecent now none s p = p
  liveness-IsRecent now (some body) s p =
      elim (Option-cases
        (if is_nullish body then none else date_text rt (prop "desktopSeenAt" body))) [
          | inl e ↦ rw (e, send_liveness) p
          | inr (t, e) ↦ elim (Option-cases s.presence) [
            | inl n ↦ rw (e, n, send_liveness) p
            | inr (r, n) ↦ elim (Option-cases (live_socket (some r) s.sockets)) [
              | inl l ↦ rw (e, n, l, send_liveness) p
              | inr (w, l) ↦ elim (Bool-cases (rt.send_throws w.handle)) [
                | inl b ↦ rw (e, n, l, b, send_liveness) p
                | inr b ↦ rw (e, n, l, b, send_liveness) (same-IsRecent s _ _ _ p)
              ]
            ]
          ]
        ]

  fetch-IsRecent :
      (now : ℕ) (q : SwarmRequest) (s : Machine) → IsRecent s → IsRecent (swarm_fetch rt now q s).1
  unfolding swarm_fetch
  fetch-IsRecent now q s p = elim (Bool-cases q.upgrade) [
    | inl a ↦ rw (a, swarm_fetch) (accept-IsRecent q.uuid q.swarm_id q.machine_id s p)
    | inr a ↦ elim (Bool-cases (str_eq q.method "GET" && str_eq q.pathname "/presence")) [
      | inl b ↦ rw (a, b, swarm_fetch) p
      | inr b ↦ elim (Bool-cases (str_eq q.method "GET" && str_eq q.pathname "/events")) [
        | inl c ↦ rw (a, b, c, swarm_fetch) p
        | inr c ↦ elim (Bool-cases (str_eq q.method "POST" && str_eq q.pathname "/send")) [
          | inl d ↦ rw (a, b, c, d, swarm_fetch) (send-IsRecent q.body s p)
          | inr d ↦ elim (Bool-cases (str_eq q.method "POST" && str_eq q.pathname "/liveness")) [
            | inl e ↦ rw (a, b, c, d, e, swarm_fetch) (liveness-IsRecent now q.body s p)
            | inr e ↦ rw (a, b, c, d, e, swarm_fetch) p
          ]
        ]
      ]
    ]
  ]

close-IsRecent : (now h : ℕ) (s : Machine) → IsRecent s → IsRecent (on_head_close now h s)
unfolding on_head_close touch_presence
close-IsRecent now h s p = elim (Option-cases (head_attachment h s.sockets)) [
  | inl e ↦ rw (e, on_head_close) p
  | inr (a, e) ↦ rw (e, on_head_close) (same-IsRecent s _ _ _ p)
]

-- What can happen to the object.
pub data SwarmEvent : Type 0 where
  head_message : ℕ → ℕ → String → SwarmEvent
  head_closed : ℕ → ℕ → SwarmEvent
  head_request : ℕ → SwarmRequest → SwarmEvent

module _ (rt : HeadRuntime) where
  unfoldable pub swarm_step : Machine → SwarmEvent → Machine
  swarm_step s (head_message now h m) = on_head_message rt now h m s
  swarm_step s (head_closed now h) = on_head_close now h s
  swarm_step s (head_request now q) = (swarm_fetch rt now q s).1

  unfoldable pub swarm_run : Machine → List SwarmEvent → Machine
  swarm_run s [] = s
  swarm_run s (e ∷ es) = swarm_run (swarm_step s e) es

  step-IsRecent : (s : Machine) (e : SwarmEvent) → IsRecent s → IsRecent (swarm_step s e)
  unfolding swarm_step
  step-IsRecent s (head_message now h m) p = message-IsRecent rt now h m s p
  step-IsRecent s (head_closed now h) p = close-IsRecent now h s p
  step-IsRecent s (head_request now q) p = fetch-IsRecent rt now q s p

  run-IsRecent : (s : Machine) (es : List SwarmEvent) → IsRecent s → IsRecent (swarm_run s es)
  unfolding swarm_run
  run-IsRecent s [] p = p
  run-IsRecent s (e ∷ es) p = run-IsRecent (swarm_step s e) es (step-IsRecent s e p)

-- The object of a machine that was never called.
unfoldable pub new_machine : Machine
new_machine = record { sockets = []; next_handle = 0; presence = none; cursor = 0; events = [] }

-- Whatever happens to the object, its buffer holds the last frames, 500 at most and all of them up
-- to then, with cursors that count up by one to the machine's cursor.
pub buffer_holds_the_last_frames :
    (rt : HeadRuntime) (es : List SwarmEvent) → IsRecent (swarm_run rt new_machine es)
unfolding new_machine IsCounted
buffer_holds_the_last_frames rt es =
    run-IsRecent rt _ es (record { few = omega arith; all_or_full = omega arith; counted = tt })
