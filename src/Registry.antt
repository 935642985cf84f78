-- ===== src/Registry.antt =====
-- src/server/services/connect_executor_connection_registry.ts, over the sinks of sse_stream.ts.
-- The clock is an argument of each operation, in milliseconds; so is the random fence of `open`.
pub mod Streams
pub mod Delivery
mod Takeover
pub mod Bounds
mod Tests
use kazibee_home.Prelude.{
  ℕ, suc, String, ◌+◌, ◌-◌, ◌==◌, ltb, leb, str_eq, if◌then◌else◌, Bool, true, false, not, ◌&&◌,
  ◌||◌, Option, none, some, List, [], ◌∷◌,
}
use kazibee_home.Prelude.Map
use kazibee_home.Prelude.Map.{Map}
use kazibee_home.Json.{Json}
use Streams.{Frame, Stream, write, end_stream}

abbrev pub stale_after_ms : ℕ
stale_after_ms = 45000

abbrev pub pending_hello_ttl_ms : ℕ
pending_hello_ttl_ms = 30000

abbrev pub stale_tombstone_ttl_ms : ℕ
stale_tombstone_ttl_ms = 45000

abbrev pub max_pending_hellos : ℕ
max_pending_hellos = 1024

abbrev pub max_stale_tombstones : ℕ
max_stale_tombstones = 1024

-- The response is the handle of its stream.
pub record Connection : Type 0 where
  pub fence : String
  pub executor_id : String
  pub device_id : String
  pub generation : ℕ
  pub response : ℕ
  pub last_activity_ms : ℕ

pub record PendingHello : Type 0 where
  pub generation : ℕ
  pub correlation_id : String
  pub expires_at_ms : ℕ

pub data ExecutorPresence : Type 0 where
  online offline stale : ExecutorPresence

pub data DispatchResult : Type 0 where
  ok executor_offline backpressure : DispatchResult

-- `disconnected` lists the executors that the disconnect listeners were told of, newest first.
pub record Registry : Type 0 where
  pub connections : Map Connection
  pub stale_executors : Map ℕ
  pub pending_hello : Map PendingHello
  pub disconnected : List String
  pub streams : List Stream

unfoldable pub empty : List Stream → Registry
empty streams = record {
  connections = [];
  stale_executors = [];
  pending_hello = [];
  disconnected = [];
  streams = streams;
}

-- The loops that delete the entries which are over.
unfoldable pub prune_hellos : ℕ → Map PendingHello → Map PendingHello
prune_hellos now [] = []
prune_hellos now ((k, p) ∷ m) =
    let rest = prune_hellos now m in if leb p.expires_at_ms now then rest else (k, p) ∷ rest

unfoldable pub prune_tombstones : ℕ → Map ℕ → Map ℕ
prune_tombstones now [] = []
prune_tombstones now ((k, expires) ∷ m) =
    let rest = prune_tombstones now m in if leb expires now then rest else (k, expires) ∷ rest

-- `while (m.size > most) m.delete(m.keys().next().value)`: the oldest entries go.
unfoldable pub evict {ℓ} : {V : Type ℓ} → ℕ → Map V → Map V
evict most [] = []
evict most ((k, v) ∷ m) =
    let rest = evict most m in if ltb most (suc (Map.size m)) then rest else (k, v) ∷ m

unfoldable pub prune_pending : ℕ → Registry → Registry
prune_pending now r = record r { pending_hello = prune_hellos now r.pending_hello }

unfoldable pub prune_stale : ℕ → Registry → Registry
prune_stale now r = record r { stale_executors = prune_tombstones now r.stale_executors }

unfoldable pub mark_stale : String → ℕ → Registry → Registry
mark_stale executor_id now r = record r {
  stale_executors = evict max_stale_tombstones (
      Map.set executor_id (now + stale_tombstone_ttl_ms)
        (Map.delete executor_id r.stale_executors));
}

unfoldable pub notify_disconnected : String → Registry → Registry
notify_disconnected executor_id r = record r { disconnected = executor_id ∷ r.disconnected }

abbrev pub drop_connection : String → Registry → Registry
drop_connection executor_id r = record r { connections = Map.delete executor_id r.connections }

abbrev pub end_response : Connection → Registry → Registry
end_response c r = record r { streams = end_stream c.response r.streams }

-- `write`: whether the stream took the frame, and the registry after it.
unfoldable pub write_to : Connection → Frame → Registry → Bool × Registry
write_to c frame r =
    let (taken, streams) = write c.response frame r.streams in
    (taken, record r { streams = streams })

unfoldable pub hello : ℕ → String → ℕ → String → Registry → Registry
unfolding prune_pending
hello now executor_id generation correlation_id r =
    let r' = prune_pending now r in
    record r' {
      pending_hello = evict max_pending_hellos (
          Map.set executor_id
            (record {
              generation = generation;
              correlation_id = correlation_id;
              expires_at_ms = now + pending_hello_ttl_ms;
            })
            (Map.delete executor_id r'.pending_hello));
    }

-- A connection that is there is told that it was replaced, ended and forgotten.
unfoldable pub take_over : String → Registry → Registry
unfolding write_to notify_disconnected
take_over executor_id r = elim (Map.get executor_id r.connections) [
  | none ↦ r
  | some previous ↦ notify_disconnected executor_id (
      drop_connection executor_id (
        end_response previous
          (write_to previous (Frame.revoked executor_id "cor_channeltakeover") r).1))
]

-- The hello that waits for this connection is acknowledged on it.
unfoldable pub acknowledge : ℕ → Connection → Registry → Registry
unfolding write_to
acknowledge now c r = elim (Map.get c.executor_id r.pending_hello) [
  | none ↦ r
  | some p ↦
      if p.generation == c.generation && ltb now p.expires_at_ms
      then acknowledged (
          write_to c (Frame.ack c.executor_id p.correlation_id)
            (record r { pending_hello = Map.delete c.executor_id r.pending_hello }))
      else r
]
  where
    acknowledged : Bool × Registry → Registry
    acknowledged (true, r') = r'
    acknowledged (false, r') = drop_connection c.executor_id (end_response c r')

unfoldable pub open_connection :
    ℕ
    → (fence executor_id device_id : String) (generation response : ℕ) → Registry
    → String × Registry
unfolding prune_pending prune_stale take_over acknowledge
open_connection now fence executor_id device_id generation response r =
    let r' = take_over executor_id (prune_stale now (prune_pending now r)) in
    (
      fence,
      acknowledge now connection (record r' {
        stale_executors = Map.delete executor_id r'.stale_executors;
        connections = Map.set executor_id connection r'.connections;
      }),
    )
  where
    connection : Connection
    connection = record {
      fence = fence;
      executor_id = executor_id;
      device_id = device_id;
      generation = generation;
      response = response;
      last_activity_ms = now;
    }

unfoldable pub touch : ℕ → String → ℕ → Registry → Bool × Registry
touch now executor_id generation r = elim (Map.get executor_id r.connections) [
  | none ↦ (false, r)
  | some c ↦ if not (c.generation == generation) then (false, r) else (
    true,
    record r {
      connections = Map.set executor_id (record c { last_activity_ms = now }) r.connections;
      stale_executors = Map.delete executor_id r.stale_executors;
    },
  )
]

-- The fence is optional.
unfoldable pub close : String → Option String → Registry → Registry
unfolding notify_disconnected
close executor_id fence r = elim (Map.get executor_id r.connections) [
  | none ↦ r
  | some current ↦
      if fits current fence
      then notify_disconnected executor_id (record r {
        connections = Map.delete executor_id r.connections;
        stale_executors = Map.delete executor_id r.stale_executors;
        pending_hello = Map.delete executor_id r.pending_hello;
      })
      else r
]
  where
    -- `!fence || current.fence === fence`
    fits : Connection → Option String → Bool
    fits current none = true
    fits current (some f) = str_eq f "" || str_eq current.fence f

unfoldable pub revoke : String → String → Registry → Registry
unfolding write_to notify_disconnected
revoke executor_id correlation_id r =
    let r' : Registry = record r {
      pending_hello = Map.delete executor_id r.pending_hello;
      stale_executors = Map.delete executor_id r.stale_executors;
    } in
    elim (Map.get executor_id r.connections) [
      | none ↦ r'
      | some current ↦ notify_disconnected executor_id (
          drop_connection executor_id (
            end_response current
              (write_to current (Frame.revoked executor_id correlation_id) r').1))
    ]

unfoldable pub presence : ℕ → String → Registry → ExecutorPresence × Registry
unfolding prune_pending prune_stale mark_stale notify_disconnected
presence now executor_id r =
    let r' = prune_stale now (prune_pending now r) in
    elim (Map.get executor_id r'.connections) [
      | none ↦ (if Map.has executor_id r'.stale_executors then stale else offline, r')
      | some c ↦
          if ltb stale_after_ms (now - c.last_activity_ms)
          then (
            stale,
            notify_disconnected executor_id
                (mark_stale executor_id now (drop_connection executor_id (end_response c r'))),
          )
          else (online, r')
    ]

abbrev pub is_online : ExecutorPresence → Bool
is_online online = true
is_online _ = false

-- What `dispatch` does once the presence is read.
unfoldable pub deliver :
    String → Json → Connection → ExecutorPresence × Registry → DispatchResult × Registry
unfolding write_to notify_disconnected
deliver executor_id frame c (p, r) =
    if not (is_online p)
    then (executor_offline, r)
    else delivered (write_to c (Frame.command frame) r)
  where
    delivered : Bool × Registry → DispatchResult × Registry
    delivered (true, r') = (ok, r')
    delivered (false, r') = (
      backpressure,
      notify_disconnected executor_id (drop_connection executor_id (end_response c r')),
    )

unfoldable pub dispatch : ℕ → String → Json → Registry → DispatchResult × Registry
unfolding presence deliver
dispatch now executor_id frame r = elim (Map.get executor_id r.connections) [
  | none ↦ (executor_offline, r)
  | some c ↦ deliver executor_id frame c (presence now executor_id r)
]

-- `presence` is read only where the rest of the test holds.
unfoldable pub matches : ℕ → String → String → ℕ → Registry → Bool × Registry
unfolding presence
matches now executor_id device_id generation r = elim (Map.get executor_id r.connections) [
  | none ↦ (false, r)
  | some c ↦
      if str_eq c.device_id device_id && c.generation == generation
      then (let (p, r') = presence now executor_id r in (is_online p, r'))
      else (false, r)
]
