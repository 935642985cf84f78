-- ===== src/Swarm/State.antt =====
-- The state of a SwarmMachineCoordinator, its frames and answers, and its sockets.
use kazibee_home.Prelude.{
  ℕ, String, ◌==◌, str_eq, if◌then◌else◌, Option, none, some, List, [], ◌∷◌, ◌++◌, Bool, false,
}
use kazibee_home.Json.{Json}

abbrev pub swarm_event_limit : ℕ
swarm_event_limit = 500

pub record SwarmAttachment : Type 0 where
  pub swarm_id : String
  pub machine_id : String
  pub fence : String
  pub hello_at : ℕ

pub record SwarmPresence : Type 0 where
  pub swarm_id : String
  pub machine_id : String
  pub fence : String
  pub last_seen_at : ℕ
  pub hello_at : ℕ
  pub head_version : Option String
  pub head_class : Option String
  pub head_state : Option String

-- A frame of a head, as `parseHeadOutboundFrame` of the package swarm-head gives it: the fields that
-- this class reads, and the whole of it.
pub record HeadFrame : Type 0 where
  pub kind : String
  pub swarm_id : String
  pub correlation_id : String
  pub head_version : String
  pub head_class : String
  pub state : String
  pub whole : Json

pub record StoredFrame : Type 0 where
  pub cursor : ℕ
  pub received_at : ℕ
  pub frame : HeadFrame

-- What the object sends, before `JSON.stringify`.
pub data HeadMessage : Type 0 where
  violation : HeadMessage
  hello_ack : (machine_id fence correlation_id : String) (accepted_at : ℕ) → HeadMessage
  liveness : (machine_id desktop_seen_at : String) (sent_at : ℕ) → HeadMessage
  forwarded : Json → HeadMessage

pub record HeadSocket : Type 0 where
  pub handle : ℕ
  pub attachment : Option SwarmAttachment
  pub answered_at : Option ℕ
  pub sent : List HeadMessage
  pub closed : Option (ℕ × String)

pub record Machine : Type 0 where
  pub sockets : List HeadSocket
  pub next_handle : ℕ
  pub presence : Option SwarmPresence
  pub cursor : ℕ
  pub events : List StoredFrame

pub record PresenceView : Type 0 where
  pub is_online : Bool
  pub record_seen : Option SwarmPresence
  pub last_seen_at : Option ℕ

pub data SwarmBody : Type 0 where
  text : String → SwarmBody
  code : String → SwarmBody
  delivered : SwarmBody
  upgraded : ℕ → SwarmBody
  seen : PresenceView → SwarmBody
  page : (events : List StoredFrame) (next_cursor : ℕ) → SwarmBody

pub data SwarmReply : Type 0 where
  answered : (status : ℕ) → SwarmBody → SwarmReply
  threw : SwarmReply

-- A number that `Number.isSafeInteger` accepts.
pub data SafeInteger : Type 0 where
  negative : SafeInteger
  whole : ℕ → SafeInteger

-- The patterns and parsers of the package swarm-head, the conversions of the language, and whether
-- `send` and `close` throw on a socket.
pub record HeadRuntime : Type 0 where
  pub is_swarm_id : String → Bool
  pub is_machine_id : String → Bool
  pub parse_outbound : (text machine_id : String) → Option HeadFrame
  pub accepts_inbound : (frame : Json) (machine_id : String) → Bool
  pub safe_integer : String → Option SafeInteger
  pub is_date : String → Bool
  pub send_throws : ℕ → Bool
  pub close_throws : ℕ → Bool

abbrev pub update_head : ℕ → (HeadSocket → HeadSocket) → List HeadSocket → List HeadSocket
update_head h f [] = []
update_head h f (w ∷ ws) = (if w.handle == h then f w else w) ∷ update_head h f ws

unfoldable pub head_attachment : ℕ → List HeadSocket → Option SwarmAttachment
head_attachment h [] = none
head_attachment h (w ∷ ws) = if w.handle == h then w.attachment else head_attachment h ws

abbrev pub send_head : ℕ → HeadMessage → List HeadSocket → List HeadSocket
send_head h m ws = update_head h (λ w. record w { sent = w.sent ++ m ∷ [] }) ws

abbrev mark_closed : ℕ → String → HeadSocket → HeadSocket
mark_closed status reason w = elim w.closed [
  | none ↦ record w { closed = some (status, reason) }
  | some c ↦ w
]

abbrev pub close_head : ℕ → ℕ → String → List HeadSocket → List HeadSocket
close_head h status reason ws = update_head h (mark_closed status reason) ws

abbrev holds_fence : String → Option SwarmAttachment → Bool
holds_fence fence none = false
holds_fence fence (some a) = str_eq a.fence fence

-- The first socket whose attachment has this fence.
unfoldable pub socket_of_fence : String → List HeadSocket → Option HeadSocket
socket_of_fence fence [] = none
socket_of_fence fence (w ∷ ws) =
    if holds_fence fence w.attachment then some w else socket_of_fence fence ws

-- `liveSocket`
unfoldable pub live_socket : Option SwarmPresence → List HeadSocket → Option HeadSocket
live_socket none ws = none
live_socket (some r) ws = socket_of_fence r.fence ws
