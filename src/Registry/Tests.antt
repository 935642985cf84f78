-- ===== src/Registry/Tests.antt =====
-- A registry at work, and what the properties of connect_executor_connection_registry.ts say of it.
use kazibee_home.Prelude.{if◌then◌else◌, true, false, ◌&&◌, some, List, [], ◌∷◌, ◌++◌, ◌≡◌, refl}
use kazibee_home.Prelude.Map
use kazibee_home.Json.{str}
use kazibee_home.Registry.Streams.{Frame, Stream, writable_ended, chunks_of}
use kazibee_home.Registry.{Connection, Registry, empty, open_connection, close, dispatch}
use kazibee_home.Registry.Takeover.{takeover_ends_the_old_stream}
use kazibee_home.Registry.Delivery.{dispatch_reaches_its_sink, serves, reachable, is_ok}
use kazibee_home.Registry.Bounds.{
  Operation, hello_op, open_op, touch_op, dispatch_op, close_op, apply_all, registry_in_bounds,
}
use kazibee_home.Registry.Bounds.Tables.{IsBounded}

abbrev two_streams : List Stream
two_streams =
    record { handle = 0; ended = false; chunks = [] }
    ∷ record { handle = 1; ended = false; chunks = [] }
    ∷ []

abbrev first : Connection
first = record {
  fence = "f_1";
  executor_id = "exe_1";
  device_id = "dev_1";
  generation = 3;
  response = 0;
  last_activity_ms = 1000;
}

abbrev connected : Registry
connected = record {
  connections = ("exe_1", first) ∷ [];
  stale_executors = [];
  pending_hello = [];
  disconnected = [];
  streams = two_streams;
}

takeover_ends_the_old_stream_example :
    (writable_ended 0 (open_connection 2000 "f_2" "exe_1" "dev_1" 3 1 connected).1.streams ≡ true)
    × (close "exe_1" (some "f_1") (open_connection 2000 "f_2" "exe_1" "dev_1" 3 1 connected).1
        ≡ (open_connection 2000 "f_2" "exe_1" "dev_1" 3 1 connected).1)
unfolding Map.get
takeover_ends_the_old_stream_example =
    takeover_ends_the_old_stream 2000 "f_2" "exe_1" "dev_1" 3 1 connected first refl refl refl

dispatch_reaches_its_sink_example :
    (is_ok (dispatch 2000 "exe_1" (str "run") connected).0 ≡ reachable 2000 "exe_1" connected)
    × (chunks_of 0 (dispatch 2000 "exe_1" (str "run") connected).1.streams
        ≡ chunks_of 0 connected.streams
          ++ (if serves 0 "exe_1" connected && is_ok (dispatch 2000 "exe_1" (str "run") connected).0
              then Frame.command (str "run") ∷ []
              else []))
dispatch_reaches_its_sink_example = dispatch_reaches_its_sink 2000 "exe_1" (str "run") connected 0

abbrev operations : List Operation
operations =
    hello_op 1000 "exe_1" 3 "cor_1"
    ∷ open_op 1500 "f_1" "exe_1" "dev_1" 3 0
    ∷ touch_op 2000 "exe_1" 3
    ∷ dispatch_op 2500 "exe_1" (str "run")
    ∷ open_op 3000 "f_2" "exe_1" "dev_1" 3 1
    ∷ close_op "exe_1" (some "f_1")
    ∷ []

registry_in_bounds_example : IsBounded (apply_all operations (empty two_streams))
registry_in_bounds_example = registry_in_bounds two_streams operations
