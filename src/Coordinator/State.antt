-- ===== src/Coordinator/State.antt =====
-- The state of an ExecutorCoordinator, the frames that it sends and the answers that it gives.
-- A time is a number of milliseconds. Every `Response` that a waiting request gets is kept in a
-- list, with the number of the request (its ticket): that is what resolving its promise does.
use kazibee_home.Prelude.{ℕ, String, Bool, Option, List, ◌*◌}
use kazibee_home.Prelude.Map.{Map}
use kazibee_home.Json.{Json}

-- The constants of durable-objects.ts.
abbrev pub max_inflight_routes : ℕ
max_inflight_routes = 32

abbrev pub accept_timeout_ms : ℕ
accept_timeout_ms = 5000

abbrev pub session_frame_limit : ℕ
session_frame_limit = 160 * 1024

abbrev pub session_pending_frames : ℕ
session_pending_frames = 64

abbrev pub max_ephemeral_invokes : ℕ
max_ephemeral_invokes = 8

abbrev pub session_invoke_timeout_ms : ℕ
session_invoke_timeout_ms = 30000

abbrev pub default_route_deadline_ms : ℕ
default_route_deadline_ms = 50000

abbrev pub max_route_deadline_ms : ℕ
max_route_deadline_ms = 55000

abbrev pub route_deadline_grace_ms : ℕ
route_deadline_grace_ms = 2000

pub record ChannelAttachment : Type 0 where
  pub executor_id : String
  pub device_id : String
  pub credential_generation : ℕ
  pub fence : String
  pub hello_at : ℕ

pub record ViewerAttachment : Type 0 where
  pub executor_id : String
  pub account_ref : String
  pub session_id : String

-- An executor attachment may lack its role; what is not a viewer is an executor channel.
pub data Attachment : Type 0 where
  channel : ChannelAttachment → Attachment
  viewer : ViewerAttachment → Attachment

-- What the object sends, before `JSON.stringify`; `raw` is a text that is forwarded as it came.
pub data Message : Type 0 where
  session_closed : String → Message
  session_open : String → String → String → ℕ → Message
  session_ready : String → Message
  session_frame : Json → String → Message
  session_close : String → String → Message
  session_chunk : String → ℕ → ℕ → String → Message
  channel_error : String → String → Bool → Message
  hello_ack : String → String → Json → ℕ → Message
  command : Json → Message
  raw : String → Message

-- A socket that the runtime holds for the object: its handle, its attachment, the time of the last
-- automatic pong, what was sent on it and the code and reason it was closed with.
pub record Socket : Type 0 where
  pub handle : ℕ
  pub attachment : Option Attachment
  pub answered_at : Option ℕ
  pub sent : List Message
  pub closed : Option (ℕ × String)

pub record PresenceRecord : Type 0 where
  pub executor_id : String
  pub device_id : String
  pub credential_generation : ℕ
  pub fence : String
  pub last_seen_at : ℕ
  pub executor_version : String
  pub platform : String
  pub capabilities : Json
  pub workspaces : Json

pub data PresenceState : Type 0 where
  online stale offline : PresenceState

pub record PendingSessionFrame : Type 0 where
  pub chunk_count : ℕ
  pub next_index : ℕ
  pub payload : List String
  pub bytes : ℕ

-- A timer that is armed is the time at which it is due.
pub record InflightRoute : Type 0 where
  pub operation_id : String
  pub command_id : String
  pub fence : String
  pub ticket : ℕ
  pub accept_timer : Option ℕ
  pub result_timer : Option ℕ
  pub accepted : Bool

pub record EphemeralInvoke : Type 0 where
  pub id : String
  pub ticket : ℕ
  pub timer : ℕ

-- The body of `GET /presence`.
pub record PresenceBody : Type 0 where
  pub state : PresenceState
  pub record_seen : Option PresenceRecord
  pub inflight : ℕ

pub data Body : Type 0 where
  text : String → Body
  coded : String → String → Body
  backpressure : String → String → ℕ → Body
  code_only : String → Body
  invoke_error : String → String → Body
  frame : Json → Body
  presence_of : PresenceBody → Body
  upgraded : ℕ → Body

pub record Response : Type 0 where
  pub status : ℕ
  pub body : Body

-- What a handler gives back: a response, or the ticket of a promise.
pub data Reply : Type 0 where
  answered : Response → Reply
  dispatched invoked : ℕ → Reply

pub record Coordinator : Type 0 where
  pub sockets : List Socket
  pub next_handle : ℕ
  pub presence : Option PresenceRecord
  pub routes : Map InflightRoute
  pub route_tickets : ℕ
  pub route_replies : List (ℕ × Response)
  pub session_frames : Map (Map PendingSessionFrame)
  pub ephemeral : Map EphemeralInvoke
  pub invoke_tickets : ℕ
  pub invoke_replies : List (ℕ × Response)
  pub frame_counter : ℕ

-- FRAME_LIMITS of the package @kazibee-internal/connect-protocol.
pub record FrameLimits : Type 0 where
  pub offline_after_ms : ℕ
  pub stale_after_ms : ℕ
  pub result_frame_bytes : ℕ
  pub session_payload_bytes : ℕ
  pub session_pending_bytes : ℕ

-- What the object takes from the language's built-in objects, from the Workers runtime and from the
-- protocol package.
pub record Runtime : Type 0 where
  pub limits : FrameLimits
  pub protocol_version : String
  -- `JSON.parse`, with `none` where it throws, and `JSON.stringify`
  pub parse : String → Option Json
  pub stringify : Json → String
  -- `String(v)`
  pub to_text : Json → String
  -- `Number(v)`, where that is an integer from 0
  pub to_index : Json → Option ℕ
  -- `Date.parse`, where that is finite; a time before the epoch counts as 0
  pub date_parse : String → Option ℕ
  -- `n.toString(36)`
  pub base36 : ℕ → String
  -- `encodeSessionFrames` of the package
  pub encode_session_frames : String → String → List Json
  -- whether `send` and `close` throw on the socket with this handle
  pub send_throws : List Socket → ℕ → Message → Bool
  pub close_throws : List Socket → ℕ → Bool
