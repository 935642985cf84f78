-- ===== src/Coordinator/Chunks.antt =====
-- The chunks of a session frame, and their reassembly under the budgets.
use Prim.Native.String
use kazibee_home.Prelude.{
  ℕ, String, len, ◌+◌, ◌==◌, leb, ltb, str_eq, if◌then◌else◌, not, ◌||◌, Option, none, some, List,
  [], ◌∷◌, ◌++◌,
}
use kazibee_home.Prelude.Map
use kazibee_home.Prelude.Map.{Map}
use kazibee_home.Json.{Json, prop, string?}
use kazibee_home.Coordinator.State.{Runtime, PendingSessionFrame, session_pending_frames}
use kazibee_home.Coordinator.Effects.{option}

infixr 66 ◌⧺◌
abbrev pub ◌⧺◌ : String → String → String
s ⧺ t = String.◌++◌ s t

-- A string that is not empty, or none.
abbrev pub filled? : Json → Option String
filled? v = option (string? v) none (λ s. if str_eq s "" then none else some s)

-- A `session.frame` message that passes the checks at the top of `onSessionFrame`.
pub record Chunk : Type 0 where
  pub session_id : String
  pub frame_id : String
  pub index : ℕ
  pub count : ℕ
  pub payload : String

-- `payload.join("")`
unfoldable pub join : List String → String
join [] = ""
join (x ∷ xs) = x ⧺ join xs

unfoldable pub total_bytes : Map PendingSessionFrame → ℕ
total_bytes [] = 0
total_bytes ((k, p) ∷ m) = p.bytes + total_bytes m

-- The pending frame that a chunk belongs to, or none where the budget of frames is spent or the
-- first chunk is missing.
unfoldable pub pending_for : Chunk → Map PendingSessionFrame → Option PendingSessionFrame
pending_for c frames =
    option (Map.get c.frame_id frames)
      (if not (c.index == 0) || leb session_pending_frames (Map.size frames)
        then none
        else some (record { chunk_count = c.count; next_index = 0; payload = []; bytes = 0 }))
      some

abbrev pub push_chunk : Chunk → PendingSessionFrame → PendingSessionFrame
push_chunk c p = record p {
  bytes = p.bytes + len c.payload;
  payload = p.payload ++ c.payload ∷ [];
  next_index = p.next_index + 1;
}

-- `frames.delete(frameId); if (frames.size === 0) this.sessionFrames.delete(sessionId);`
unfoldable pub close_frame :
    Chunk → Map PendingSessionFrame → Map (Map PendingSessionFrame) → Map (Map PendingSessionFrame)
close_frame c frames all =
    let rest = Map.delete c.frame_id frames in
    if Map.size rest == 0 then Map.delete c.session_id all else Map.set c.session_id rest all

module _ (rt : Runtime) where
  unfoldable pub chunk_of : Json → Option Chunk
  chunk_of frame = option (filled? (prop "sessionId" frame)) none λ session_id.
      option (filled? (prop "frameId" frame)) none λ frame_id.
        option (string? (prop "payload" frame)) none λ payload.
          option (rt.to_index (prop "chunkIndex" frame)) none λ index.
            option (rt.to_index (prop "chunkCount" frame)) none λ count.
              if ltb rt.limits.session_payload_bytes (len payload) || ltb count 1 || leb count index
              then none
              else some (record {
                session_id = session_id;
                frame_id = frame_id;
                index = index;
                count = count;
                payload = payload;
              })

  -- The session's pending frames with the chunk added, or none where the budget fails.
  unfoldable pub add_chunk :
      Chunk → Map PendingSessionFrame → Option (PendingSessionFrame × Map PendingSessionFrame)
  unfolding pending_for
  add_chunk c frames = option (pending_for c frames) none λ p.
      if not (p.chunk_count == c.count) || not (p.next_index == c.index)
      then none
      else let p' = push_chunk c p in
        let frames' = Map.set c.frame_id p' frames in
        if ltb rt.limits.session_pending_bytes (total_bytes frames')
        then none
        else some (p', frames')
