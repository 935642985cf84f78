-- ===== src/Registry/Takeover.antt =====
-- What opening a stream does to the stream that the executor had before.
use kazibee_home.Prelude.{
  ℕ, String, ◌==◌, ltb, str_eq, true, false, ◌&&◌, none, some, List, [], ◌∷◌, ◌≡◌, ◌∙◌, ◌⊎◌, refl,
  arith, Bool-cases, Option-cases, inl, inr,
}
use kazibee_home.Prelude.Map
use kazibee_home.Sse.{end_stream-ended}
use kazibee_home.Registry.Streams.{Frame, Stream, write, end_stream, writable_ended}
use kazibee_home.Registry.{
  Connection, Registry, open_connection, acknowledge, take_over, close, write_to,
  notify_disconnected, drop_connection, end_response, prune_pending, prune_stale,
}

ended-write :
    (j h : ℕ) (f : Frame) (ws : List Stream)
    → writable_ended j (write h f ws).1 ≡ writable_ended j ws
unfolding writable_ended write
ended-write j h f [] = refl
ended-write j h f (w ∷ ws) = elim (Bool-cases (w.handle == h)) [
  | inl e ↦ elim (Bool-cases w.ended) [ inl d ↦ rw (e, d) refl | inr d ↦ rw (e, d) (ground arith) ]
  | inr e ↦ rw e (ground (arith, ended-write j h f ws))
]

ended-end_stream :
    (j h : ℕ) (ws : List Stream)
    → writable_ended j ws ≡ true
    → writable_ended j (end_stream h ws) ≡ true
unfolding writable_ended end_stream
ended-end_stream j h [] e = refl
ended-end_stream j h (w ∷ ws) e = ground (arith, ended-end_stream j h ws)

module _ (executor_id : String) (r : Registry) (p : Connection)
    (old : Map.get executor_id r.connections ≡ some p) where
  take_over-ended : writable_ended p.response (take_over executor_id r).streams ≡ true
  unfolding take_over write_to notify_disconnected
  take_over-ended = rw (old, take_over) (end_stream-ended p.response _)

-- The three ways in which an acknowledgement can end: nothing was due, it was written, it failed.
module _ (now : ℕ) (c : Connection) (r : Registry) where
  unfoldable pub written : String → Registry
  unfolding write_to
  written correlation_id =
      (write_to c (Frame.ack c.executor_id correlation_id)
        (record r { pending_hello = Map.delete c.executor_id r.pending_hello })).1

  pub acknowledge-cases :
      (P : Registry → Type 0)
      → P r
      → ((i : String) → P (written i))
      → ((i : String) → P (drop_connection c.executor_id (end_response c (written i))))
      → P (acknowledge now c r)
  unfolding acknowledge write_to written
  acknowledge-cases P none_due sent failed =
      elim (Option-cases (Map.get c.executor_id r.pending_hello)) [
        | inl n ↦ rw (n, acknowledge) none_due
        | inr (p, n) ↦ elim (Bool-cases (p.generation == c.generation && ltb now p.expires_at_ms)) [
          | inr d ↦ rw (n, acknowledge, d) none_due
          | inl d ↦
              elim (Bool-cases
                (write_to c (Frame.ack c.executor_id p.correlation_id)
                  (record r { pending_hello = Map.delete c.executor_id r.pending_hello })).0) [
                    | inl w ↦ rw (n, acknowledge, d, w) (sent p.correlation_id)
                    | inr w ↦ rw (n, acknowledge, d, w) (failed p.correlation_id)
                  ]
        ]
      ]

  acknowledge-ended :
      (j : ℕ)
      → writable_ended j r.streams ≡ true
      → writable_ended j (acknowledge now c r).streams ≡ true
  unfolding written write_to
  acknowledge-ended j e =
      let still =
        λ (i : String). ended-write j c.response (Frame.ack c.executor_id i) r.streams ∙ e in
      acknowledge-cases (λ q. writable_ended j q.streams ≡ true) e still
        (λ i. ended-end_stream j c.response _ (still i))

  acknowledge-connection :
      Map.get c.executor_id r.connections ≡ some c
      → (Map.get c.executor_id (acknowledge now c r).connections ≡ some c)
        ⊎ (Map.get c.executor_id (acknowledge now c r).connections ≡ none)
  unfolding written write_to
  acknowledge-connection e =
      acknowledge-cases
        (λ q.
          (Map.get c.executor_id q.connections ≡ some c)
          ⊎ (Map.get c.executor_id q.connections ≡ none))
        (inl e) (λ i. inl e) (λ i. inr (Map.get-delete_same c.executor_id r.connections))

close-fenced :
    (executor_id : String) (old : String) (r : Registry) (c : Connection)
    → (Map.get executor_id r.connections ≡ some c) ⊎ (Map.get executor_id r.connections ≡ none)
    → str_eq c.fence old ≡ false
    → str_eq old "" ≡ false
    → close executor_id (some old) r ≡ r
unfolding close
close-fenced executor_id old r c (inl e) d g = rw (e, close, d, g) refl
close-fenced executor_id old r c (inr e) d g = rw (e, close) refl

-- Where an executor with a connection opens a new stream under a new fence, the sink of the old
-- connection has ended, and a close with the old fence changes nothing. The old fence is not empty.
pub takeover_ends_the_old_stream :
    (now : ℕ) (fence executor_id device_id : String) (generation response : ℕ) (r : Registry)
    (p : Connection)
    → Map.get executor_id r.connections ≡ some p
    → str_eq fence p.fence ≡ false
    → str_eq p.fence "" ≡ false
    → (writable_ended p.response
          (open_connection now fence executor_id device_id generation response r).1.streams
        ≡ true)
      × (close executor_id
            (some p.fence)
            (open_connection now fence executor_id device_id generation response r).1
          ≡ (open_connection now fence executor_id device_id generation response r).1)
unfolding open_connection prune_pending prune_stale
takeover_ends_the_old_stream now fence executor_id device_id generation response r p e d g =
    let c : Connection = record {
      fence = fence;
      executor_id = executor_id;
      device_id = device_id;
      generation = generation;
      response = response;
      last_activity_ms = now;
    } in
    (
      acknowledge-ended now c _ p.response
          (take_over-ended executor_id (prune_stale now (prune_pending now r)) p e),
      close-fenced executor_id p.fence _ c
          (acknowledge-connection now c _ (Map.get-set_same executor_id c _)) d g,
    )
