-- ===== src/Registry/Delivery.antt =====
-- What an operation of the registry does to the sinks: the frames they took and those that ended.
use kazibee_home.Prelude.{
  ℕ, String, ◌-◌, ◌==◌, ltb, if◌then◌else◌, Bool, true, false, not, ◌&&◌, none, some, List, [], ◌∷◌,
  ◌++◌, append-nil, ◌≡◌, refl, sym, ◌∙◌, arith, ==_iff, Bool-cases, Option-cases, inl, inr,
}
use kazibee_home.Prelude.Map
use kazibee_home.Json.{Json}
use kazibee_home.Registry.Streams.{Frame, Stream, write, end_stream, writable_ended, chunks_of}
use kazibee_home.Registry.{
  Connection, Registry, DispatchResult, ok, dispatch, deliver, presence, is_online, write_to,
  notify_disconnected, stale_after_ms, prune_pending, prune_stale, mark_stale, ExecutorPresence,
  online, stale, offline,
}

-- A frame is added to the sink it was written to, where that took it, and to no other.
chunks-write :
    (j h : ℕ) (f : Frame) (ws : List Stream)
    → chunks_of j (write h f ws).1
      ≡ chunks_of j ws ++ (if j == h && (write h f ws).0 then f ∷ [] else [])
unfolding chunks_of write
chunks-write j h f [] = ground arith
chunks-write j h f (w ∷ ws) = elim (Bool-cases (w.handle == h)) [
  | inl e ↦ elim (Bool-cases w.ended) [
    | inl d ↦ rw (e, d) (ground (arith, append-nil (chunks_of j (w ∷ ws))))
    | inr d ↦ rw (e, d) (ground (arith, append-nil (chunks_of j ws), ==_iff w.handle h))
  ]
  | inr e ↦ rw (e) (ground (arith, chunks-write j h f ws, append-nil w.chunks, ==_iff w.handle h))
]

chunks-end_stream : (j h : ℕ) (ws : List Stream) → chunks_of j (end_stream h ws) ≡ chunks_of j ws
unfolding chunks_of end_stream
chunks-end_stream j h [] = refl
chunks-end_stream j h (w ∷ ws) = ground (arith, chunks-end_stream j h ws)

write-taken : (h : ℕ) (f : Frame) (ws : List Stream) → (write h f ws).0 ≡ not (writable_ended h ws)
unfolding write writable_ended
write-taken h f [] = refl
write-taken h f (w ∷ ws) = ground (arith, write-taken h f ws)

-- Whether the sink is that of the executor's connection, and whether a command would reach it.
unfoldable pub serves : ℕ → String → Registry → Bool
serves j executor_id r = elim (Map.get executor_id r.connections) [
  | none ↦ false
  | some c ↦ j == c.response
]

unfoldable pub reachable : ℕ → String → Registry → Bool
reachable now executor_id r = elim (Map.get executor_id r.connections) [
  | none ↦ false
  | some c ↦
      not (ltb stale_after_ms (now - c.last_activity_ms))
      && not (writable_ended c.response r.streams)
]

abbrev pub is_ok : DispatchResult → Bool
is_ok ok = true
is_ok _ = false

deliver-lem :
    (executor_id : String) (frame : Json) (j : ℕ) (c : Connection) (p : ExecutorPresence × Registry)
    → (is_ok (deliver executor_id frame c p).0
        ≡ is_online p.0 && not (writable_ended c.response p.1.streams))
      × (chunks_of j (deliver executor_id frame c p).1.streams
          ≡ chunks_of j p.1.streams
            ++ (if j == c.response && is_ok (deliver executor_id frame c p).0
                then Frame.command frame ∷ []
                else []))
unfolding deliver write_to notify_disconnected
deliver-lem executor_id frame j c (online, r) =
    elim (Bool-cases (write c.response (Frame.command frame) r.streams).0) [
      | inl w ↦ rw w (
          ground (
            arith,
            append-nil (chunks_of j r.streams),
            write-taken c.response (Frame.command frame) r.streams,
            chunks-write j c.response (Frame.command frame) r.streams,
            chunks-end_stream j c.response (write c.response (Frame.command frame) r.streams).1,
          ))
      | inr w ↦ rw w (
          ground (
            arith,
            append-nil (chunks_of j r.streams),
            write-taken c.response (Frame.command frame) r.streams,
            chunks-write j c.response (Frame.command frame) r.streams,
            chunks-end_stream j c.response (write c.response (Frame.command frame) r.streams).1,
          ))
    ]
deliver-lem executor_id frame j c (stale, r) = ground (arith, append-nil (chunks_of j r.streams))
deliver-lem executor_id frame j c (offline, r) = ground (arith, append-nil (chunks_of j r.streams))

module _ (now : ℕ) (executor_id : String) (frame : Json) (r : Registry) where
  presence-lem :
      (j : ℕ) (c : Connection)
      → Map.get executor_id r.connections ≡ some c
      → (is_online (presence now executor_id r).0
          ≡ not (ltb stale_after_ms (now - c.last_activity_ms)))
        × (chunks_of j (presence now executor_id r).1.streams ≡ chunks_of j r.streams)
        × (is_online (presence now executor_id r).0 ≡ true
            → (presence now executor_id r).1.streams ≡ r.streams)
  unfolding presence prune_pending prune_stale mark_stale notify_disconnected
  presence-lem j c e = elim (Bool-cases (ltb stale_after_ms (now - c.last_activity_ms))) [
    | inl d ↦ rw (e, presence, d) (refl, chunks-end_stream j c.response r.streams, λ h. cc)
    | inr d ↦ rw (e, presence, d) (refl, refl, λ h. refl)
  ]

  presence-open :
      (c : Connection)
      → Map.get executor_id r.connections ≡ some c
      → (is_online (presence now executor_id r).0
          && not (writable_ended c.response (presence now executor_id r).1.streams))
        ≡ (not (ltb stale_after_ms (now - c.last_activity_ms))
            && not (writable_ended c.response r.streams))
  presence-open c e =
      let seen = presence-lem 0 c e in
      elim (Bool-cases (is_online (presence now executor_id r).0)) [
        | inl h ↦ rw (sym seen.0, seen.2 h) refl
        | inr h ↦ rw (sym seen.0, h) refl
      ]

  -- A command is answered with `ok` exactly where the executor has a connection that was active in
  -- the last 45 seconds and whose sink has not ended; then that sink takes the command, after what
  -- it took before, and no other sink takes anything. With any other answer no sink takes anything.
  pub dispatch_reaches_its_sink :
      (j : ℕ)
      → (is_ok (dispatch now executor_id frame r).0 ≡ reachable now executor_id r)
        × (chunks_of j (dispatch now executor_id frame r).1.streams
            ≡ chunks_of j r.streams
              ++ (if serves j executor_id r && is_ok (dispatch now executor_id frame r).0
                  then Frame.command frame ∷ []
                  else []))
  unfolding dispatch reachable serves
  dispatch_reaches_its_sink j = elim (Option-cases (Map.get executor_id r.connections)) [
    | inl e ↦ rw (e, dispatch, reachable, serves) (refl, sym (append-nil (chunks_of j r.streams)))
    | inr (c, e) ↦
        let sunk = deliver-lem executor_id frame j c (presence now executor_id r) in
        let seen = presence-lem j c e in
        rw (e, dispatch, reachable, serves) (sunk.0 ∙ presence-open c e, rw (sym seen.1) sunk.1)
  ]
