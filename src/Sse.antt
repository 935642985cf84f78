-- ===== src/Sse.antt =====
-- src/server/services/sse_stream.ts: the sinks that events are written to, at any type of events. A
-- sink is named by a handle. It takes every chunk until it has ended, by the server or because the
-- client hung up.
use kazibee_home.Prelude.{
  ℕ, ◌==◌, if◌then◌else◌, Bool, true, false, not, List, [], ◌∷◌, ◌++◌, ◌≡◌, refl, arith,
}

pub record Sink (F : Type 0) : Type 0 where
  pub handle : ℕ
  pub ended : Bool
  pub chunks : List F

-- `write` of the sink with this handle; a handle that names no sink takes nothing.
unfoldable pub write : {F : Type 0} → ℕ → F → List (Sink F) → Bool × List (Sink F)
write h frame [] = (false, [])
write h frame (w ∷ ws) =
    let (taken, rest) = write h frame ws in
    if w.handle == h
    then (not w.ended, (if w.ended then w else record w { chunks = w.chunks ++ frame ∷ [] }) ∷ ws)
    else (taken, w ∷ rest)

unfoldable pub end_stream : {F : Type 0} → ℕ → List (Sink F) → List (Sink F)
end_stream h [] = []
end_stream h (w ∷ ws) = (if w.handle == h then record w { ended = true } else w) ∷ end_stream h ws

-- `writableEnded`
unfoldable pub writable_ended : {F : Type 0} → ℕ → List (Sink F) → Bool
writable_ended h [] = true
writable_ended h (w ∷ ws) = if w.handle == h then w.ended else writable_ended h ws

-- The frames that a sink took.
unfoldable pub chunks_of : {F : Type 0} → ℕ → List (Sink F) → List F
chunks_of h [] = []
chunks_of h (w ∷ ws) = if w.handle == h then w.chunks else chunks_of h ws

pub end_stream-ended :
    {F : Type 0} (h : ℕ) (ws : List (Sink F)) → writable_ended h (end_stream h ws) ≡ true
unfolding writable_ended end_stream
end_stream-ended h [] = refl
end_stream-ended h (w ∷ ws) = ground (arith, end_stream-ended h ws)
