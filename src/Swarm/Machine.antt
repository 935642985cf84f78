-- ===== src/Swarm/Machine.antt =====
-- The handlers of SwarmMachineCoordinator.
use Prim.Native.String
use kazibee_home.Prelude.{
  ℕ, String, ◌+◌, ◌-◌, ltb, str_eq, if◌then◌else◌, Bool, true, false, not, ◌&&◌, ◌||◌, Option, none,
  some, List, [], ◌∷◌, ◌++◌, length, take, drop, keep, min, max, get_or,
}
use kazibee_home.Json.{Json, prop, string?, is_nullish, is_reference}
use kazibee_home.Swarm.State.{
  swarm_event_limit, SwarmAttachment, SwarmPresence, HeadFrame, StoredFrame, violation, hello_ack,
  liveness, forwarded, HeadSocket, Machine, PresenceView, text, code, delivered, upgraded, seen,
  page, SwarmReply, answered, threw, negative, whole, HeadRuntime, update_head, head_attachment,
  send_head, close_head, live_socket,
}

-- `current.slice(-SWARM_EVENT_LIMIT)`
unfoldable pub latest : List StoredFrame → List StoredFrame
latest es = drop (length es - swarm_event_limit) es

unfoldable pub append_frame : ℕ → HeadFrame → Machine → Machine
unfolding latest
append_frame now f s =
    let cursor = s.cursor + 1 in
    record s {
      cursor = cursor;
      events = latest (s.events ++ record { cursor = cursor; received_at = now; frame = f } ∷ []);
    }

unfoldable pub should_buffer : String → Bool
should_buffer kind =
    str_eq kind "head.heartbeat"
    || str_eq kind "thread.state"
    || str_eq kind "thread.event"
    || str_eq kind "thread.turn.result"
    || str_eq kind "credential.accepted"
    || str_eq kind "credential.rejected"

-- The record of the same fence, seen now; any other stays as it is.
unfoldable pub touched : ℕ → String → Option String → Option SwarmPresence → Option SwarmPresence
touched now fence head_state none = none
touched now fence head_state (some r) =
    if not (str_eq r.fence fence)
    then some r
    else some (record r {
      last_seen_at = now;
      head_state = elim head_state [ none ↦ r.head_state | some t ↦ some t ];
    })

unfoldable pub touch_presence : ℕ → SwarmAttachment → Option String → Machine → Machine
touch_presence now a head_state s = record s {
  presence = touched now a.fence head_state s.presence;
}

unfoldable pub on_head_close : ℕ → ℕ → Machine → Machine
unfolding touch_presence
on_head_close now h s = elim (head_attachment h s.sockets) [
  | none ↦ s
  | some a ↦ touch_presence now a none s
]

unfoldable pub head_presence : Machine → PresenceView
head_presence s = elim s.presence [
  | none ↦ record { is_online = false; record_seen = none; last_seen_at = none }
  | some r ↦ elim (live_socket (some r) s.sockets) [
    | none ↦ record { is_online = false; record_seen = some r; last_seen_at = some r.last_seen_at }
    | some w ↦ record {
      is_online = true;
      record_seen = some r;
      last_seen_at = some (max r.last_seen_at (get_or w.answered_at 0));
    }
  ]
]

module _ (rt : HeadRuntime) where
  -- A send that throws leaves the socket open.
  unfoldable pub reject_frame : ℕ → Machine → Machine
  reject_frame h s = if rt.send_throws h then s else record s {
    sockets = close_head h 1008 "invalid head frame" (send_head h violation s.sockets);
  }

  unfoldable pub on_head_hello : ℕ → ℕ → SwarmAttachment → HeadFrame → Machine → Machine
  on_head_hello now h a f s =
      let ws =
        update_head h (λ w. record w { attachment = some (record a { hello_at = now }) })
          s.sockets in
      record s {
        presence = some (record {
          swarm_id = a.swarm_id;
          machine_id = a.machine_id;
          fence = a.fence;
          last_seen_at = now;
          hello_at = now;
          head_version = some f.head_version;
          head_class = some f.head_class;
          head_state = some "booting";
        });
        sockets =
            if rt.send_throws h
            then ws
            else send_head h (hello_ack a.machine_id a.fence f.correlation_id now) ws;
      }

  -- A frame that parses.
  unfoldable pub on_head_frame : ℕ → ℕ → SwarmAttachment → HeadFrame → Machine → Machine
  unfolding reject_frame on_head_hello touch_presence append_frame
  on_head_frame now h a f s =
      if str_eq f.kind "head.hello"
      then if not (str_eq f.swarm_id a.swarm_id)
        then reject_frame h s
        else on_head_hello now h a f s
      else buffered
          (touch_presence now a (if str_eq f.kind "head.heartbeat" then some f.state else none) s)
    where
      buffered : Machine → Machine
      buffered s' = if should_buffer f.kind then append_frame now f s' else s'

  unfoldable pub on_head_message : ℕ → ℕ → String → Machine → Machine
  unfolding reject_frame on_head_frame
  on_head_message now h message s = elim (head_attachment h s.sockets) [
    | none ↦ record s { sockets = close_head h 1008 "unidentified channel" s.sockets }
    | some a ↦ elim (rt.parse_outbound message a.machine_id) [
      | none ↦ reject_frame h s
      | some f ↦ on_head_frame now h a f s
    ]
  ]

  -- The loop over the sockets that are there.
  unfoldable pub replace_heads : List HeadSocket → List HeadSocket
  replace_heads [] = []
  replace_heads (w ∷ ws) = (if rt.close_throws w.handle then w else mark w) ∷ replace_heads ws
    where
      mark : HeadSocket → HeadSocket
      mark v = elim v.closed [
        | none ↦ record v { closed = some (1012, "replaced by newer channel") }
        | some c ↦ v
      ]

  -- The random text is the one that the fence is made of. A header that is absent is the empty text.
  unfoldable pub accept_head : (uuid swarm_id machine_id : String) → Machine → SwarmReply × Machine
  accept_head uuid swarm_id machine_id s =
      if str_eq swarm_id ""
        || not (rt.is_swarm_id swarm_id)
        || str_eq machine_id ""
        || not (rt.is_machine_id machine_id)
      then (answered 400 (text "missing channel identity"), s)
      else (
        answered 101 (upgraded s.next_handle),
        record s { sockets = replace_heads s.sockets ++ new ∷ []; next_handle = s.next_handle + 1 },
      )
    where
      new : HeadSocket
      new = record {
        handle = s.next_handle;
        attachment = some (record {
          swarm_id = swarm_id;
          machine_id = machine_id;
          fence = String.◌++◌ "fence_" uuid;
          hello_at = 0;
        });
        answered_at = none;
        sent = [];
        closed = none;
      }

  unfoldable pub after_of : String → ℕ
  after_of raw = elim (rt.safe_integer raw) [ none ↦ 0 | some negative ↦ 0 | some (whole n) ↦ n ]

  unfoldable pub limit_of : String → ℕ
  limit_of raw = elim (rt.safe_integer raw) [
    | none ↦ 100
    | some negative ↦ 1
    | some (whole n) ↦ min (max n 1) 100
  ]

-- The machine that a frame is for.
abbrev pub candidate_id : Option SwarmPresence → Json → Option String
candidate_id (some r) frame = some r.machine_id
candidate_id none frame = if is_reference frame then string? (prop "machineId" frame) else none

-- `events.at(-1)?.cursor ?? after`
unfoldable pub next_cursor : ℕ → List StoredFrame → ℕ
next_cursor after [] = after
next_cursor after (e ∷ es) = next_cursor e.cursor es

-- `stored.filter((entry) => entry.cursor > after).slice(0, limit)`
unfoldable pub page_of : (after limit : ℕ) → List StoredFrame → List StoredFrame
page_of after limit stored = take limit (keep (λ e. ltb after e.cursor) stored)

module _ (rt : HeadRuntime) where
  unfoldable pub read_events : (raw_after raw_limit : Option String) → Machine → SwarmReply
  unfolding page_of next_cursor after_of limit_of
  read_events raw_after raw_limit s =
      let after = after_of rt (get_or raw_after "0") in
      let events = page_of after (limit_of rt (get_or raw_limit "100")) s.events in
      answered 200 (page events (next_cursor after events))

  -- `POST /send` of a body; `none` where the body is no JSON.
  unfoldable pub send_frame : Option Json → Machine → SwarmReply × Machine
  send_frame none s = (answered 400 (code "INVALID_FRAME"), s)
  send_frame (some frame) s = elim (candidate_id s.presence frame) [
    | none ↦ (answered 400 (code "INVALID_FRAME"), s)
    | some id ↦
        if not (rt.is_machine_id id) || not (rt.accepts_inbound frame id)
        then (answered 400 (code "INVALID_FRAME"), s)
        else elim (live_socket s.presence s.sockets) [
          | none ↦ (answered 503 (code "MACHINE_OFFLINE"), s)
          | some w ↦
              if rt.send_throws w.handle then (answered 503 (code "MACHINE_OFFLINE"), s) else (
                answered 200 delivered,
                record s { sockets = send_head w.handle (forwarded frame) s.sockets },
              )
        ]
  ]

  abbrev pub date_text : Json → Option String
  date_text v = elim (string? v) [ none ↦ none | some t ↦ if rt.is_date t then some t else none ]

  -- `POST /liveness`; a body that is null throws inside the `try`, and so is refused.
  unfoldable pub send_liveness : ℕ → Option Json → Machine → SwarmReply × Machine
  send_liveness now none s = (answered 400 (code "INVALID_FRAME"), s)
  send_liveness now (some body) s =
      elim (if is_nullish body then none else date_text (prop "desktopSeenAt" body)) [
        | none ↦ (answered 400 (code "INVALID_FRAME"), s)
        | some t ↦ elim s.presence [
          | none ↦ (answered 503 (code "MACHINE_OFFLINE"), s)
          | some r ↦ elim (live_socket (some r) s.sockets) [
            | none ↦ (answered 503 (code "MACHINE_OFFLINE"), s)
            | some w ↦ if rt.send_throws w.handle then (threw, s) else (
              answered 200 delivered,
              record s { sockets = send_head w.handle (liveness r.machine_id t now) s.sockets },
            )
          ]
        ]
      ]

-- The parts of a request that `fetch` and what it calls read.
pub record SwarmRequest : Type 0 where
  pub upgrade : Bool
  pub method : String
  pub pathname : String
  pub swarm_id : String
  pub machine_id : String
  pub uuid : String
  pub after : Option String
  pub limit : Option String
  pub body : Option Json

module _ (rt : HeadRuntime) where
  unfoldable pub swarm_fetch : ℕ → SwarmRequest → Machine → SwarmReply × Machine
  swarm_fetch now q s =
      if q.upgrade
      then accept_head rt q.uuid q.swarm_id q.machine_id s
      else if str_eq q.method "GET" && str_eq q.pathname "/presence"
      then (answered 200 (seen (head_presence s)), s)
      else if str_eq q.method "GET" && str_eq q.pathname "/events"
      then (read_events rt q.after q.limit s, s)
      else if str_eq q.method "POST" && str_eq q.pathname "/send"
      then send_frame rt q.body s
      else if str_eq q.method "POST" && str_eq q.pathname "/liveness"
      then send_liveness rt now q.body s
      else (answered 404 (text "not found"), s)
