-- ===== src/Registry/Streams.antt =====
-- The frames of the registry, over the sinks of src/server/services/sse_stream.ts.
use kazibee_home.Prelude.{String}
use kazibee_home.Json.{Json}
use kazibee_home.Sse.{Sink}
unfoldable pub use kazibee_home.Sse.{write, end_stream, writable_ended, chunks_of}

-- The frames that the registry writes, before `JSON.stringify`.
pub data Frame : Type 0 where
  revoked : String → String → Frame
  ack : String → String → Frame
  command : Json → Frame

abbrev pub Stream : Type 0
Stream = Sink Frame
