-- ===== src/Coordinator/Reassembly.antt =====
-- A session frame that comes in chunks, in order and within the budgets, is put together again; and
-- no session ever holds more than its budgets allow.
use kazibee_home.Prelude.{
  sym, subst, Bool-cases, str_eq, ℕ, String, len, ◌+◌, ◌≤◌, ◌<◌, ◌≡◌, refl, ◌∙◌, Option, none, some,
  List, [], ◌∷◌, ◌++◌, length, append_assoc, arith, eq_refl, Option-cases, inl, inr,
}
use kazibee_home.Prelude.Map
use kazibee_home.Prelude.Map.{Map}
use kazibee_home.Coordinator.State.{Runtime, PendingSessionFrame, session_pending_frames}
use kazibee_home.Coordinator.Effects.{option}
use kazibee_home.Coordinator.Chunks.{Chunk, total_bytes, push_chunk, add_chunk}

total_bytes-set_new :
    (k : String) (p : PendingSessionFrame) (m : Map PendingSessionFrame)
    → Map.get k m ≡ none
    → total_bytes (Map.set k p m) ≡ total_bytes m + p.bytes
unfolding total_bytes Map.set Map.get
total_bytes-set_new k p [] e = omega arith
total_bytes-set_new k p ((j, q) ∷ m) e = ground (arith, total_bytes-set_new k p m)

total_bytes-set_old :
    (k : String) (q p : PendingSessionFrame) (m : Map PendingSessionFrame)
    → Map.get k m ≡ some q
    → total_bytes (Map.set k p m) + q.bytes ≡ total_bytes m + p.bytes
unfolding total_bytes Map.set Map.get
total_bytes-set_old k q p [] e = cc
total_bytes-set_old k q p ((j, r) ∷ m) e = ground (arith, total_bytes-set_old k q p m)

total_bytes-delete-le :
    (k : String) (m : Map PendingSessionFrame) → total_bytes (Map.delete k m) ≤ total_bytes m
unfolding total_bytes Map.delete
total_bytes-delete-le k [] = omega arith
total_bytes-delete-le k ((j, r) ∷ m) = ground (arith, total_bytes-delete-le k m)

-- The bytes of a list of texts.
unfoldable pub bytes_of : List String → ℕ
bytes_of [] = 0
bytes_of (x ∷ xs) = len x + bytes_of xs

-- The bytes of all the texts that a session holds.
unfoldable pub held_bytes : Map PendingSessionFrame → ℕ
unfolding bytes_of
held_bytes [] = 0
held_bytes ((k, p) ∷ m) = bytes_of p.payload + held_bytes m

-- Each frame counts the bytes of its own texts.
pub AllCounted : Map PendingSessionFrame → Type 0
unfolding bytes_of
AllCounted [] = Unit {0}
AllCounted ((k, p) ∷ m) = (p.bytes ≡ bytes_of p.payload) × AllCounted m

bytes_of-append : (xs : List String) (x : String) → bytes_of (xs ++ x ∷ []) ≡ bytes_of xs + len x
unfolding bytes_of
bytes_of-append [] x = omega arith
bytes_of-append (y ∷ xs) x = omega (arith, bytes_of-append xs x)

total_bytes-AllCounted : (m : Map PendingSessionFrame) → AllCounted m → total_bytes m ≡ held_bytes m
unfolding total_bytes held_bytes AllCounted
total_bytes-AllCounted [] h = refl
total_bytes-AllCounted ((k, p) ∷ m) (h, hs) = omega (arith, h, total_bytes-AllCounted m hs)

set-AllCounted :
    (k : String) (p : PendingSessionFrame) (m : Map PendingSessionFrame)
    → p.bytes ≡ bytes_of p.payload
    → AllCounted m
    → AllCounted (Map.set k p m)
unfolding AllCounted Map.set
set-AllCounted k p [] h hs = (h, tt)
set-AllCounted k p ((j, q) ∷ m) h (hq, hs) = elim (Bool-cases (str_eq j k)) [
  | inl e ↦ rw e (h, hs)
  | inr e ↦ rw e (hq, set-AllCounted k p m h hs)
]

delete-AllCounted :
    (k : String) (m : Map PendingSessionFrame) → AllCounted m → AllCounted (Map.delete k m)
unfolding AllCounted Map.delete
delete-AllCounted k [] hs = tt
delete-AllCounted k ((j, q) ∷ m) (hq, hs) = elim (Bool-cases (str_eq j k)) [
  | inl e ↦ rw e (delete-AllCounted k m hs)
  | inr e ↦ rw e (hq, delete-AllCounted k m hs)
]

get-AllCounted :
    (k : String) (p : PendingSessionFrame) (m : Map PendingSessionFrame)
    → Map.get k m ≡ some p
    → AllCounted m
    → p.bytes ≡ bytes_of p.payload
unfolding AllCounted Map.get
get-AllCounted k p [] e hs = cc
get-AllCounted k p ((j, q) ∷ m) e (hq, hs) = elim (Bool-cases (str_eq j k)) [
  | inl x ↦ let same : q ≡ p = ground arith in rw (sym same) hq
  | inr x ↦ get-AllCounted k p m (ground arith) hs
]

-- The budgets of one session: of its frames, and of the bytes of the texts that it holds.
pub record IsWithin (rt : Runtime) (m : Map PendingSessionFrame) : Type 0 where
  pub few : Map.size m ≤ session_pending_frames
  pub light : held_bytes m ≤ rt.limits.session_pending_bytes
  pub counted : AllCounted m

pub empty-IsWithin : (rt : Runtime) → IsWithin rt []
unfolding held_bytes AllCounted
empty-IsWithin rt = record { few = omega arith; light = omega arith; counted = tt }

push_chunk-counted :
    (c : Chunk) (p : PendingSessionFrame)
    → p.bytes ≡ bytes_of p.payload
    → (push_chunk c p).bytes ≡ bytes_of (push_chunk c p).payload
push_chunk-counted c p h = omega (arith, h, bytes_of-append p.payload c.payload)

-- A chunk that is taken keeps the session within its budgets.
add_chunk-few :
    (rt : Runtime) (c : Chunk) (m m' : Map PendingSessionFrame) (p : PendingSessionFrame)
    → Map.size m ≤ session_pending_frames
    → add_chunk rt c m ≡ some (p, m')
    → (Map.size m' ≤ session_pending_frames) × (total_bytes m' ≤ rt.limits.session_pending_bytes)
unfolding add_chunk option
add_chunk-few rt c m m' p h e = elim (Option-cases (Map.get c.frame_id m)) [
  | inl new ↦
      let first : PendingSessionFrame = record {
        chunk_count = c.count;
        next_index = 0;
        payload = [];
        bytes = 0;
      } in
      ground (arith, Map.size-set-le c.frame_id (push_chunk c first) m)
  | inr (q, old) ↦ ground (arith, Map.size-set_old c.frame_id q (push_chunk c q) m old)
]

add_chunk-AllCounted :
    (rt : Runtime) (c : Chunk) (m m' : Map PendingSessionFrame) (p : PendingSessionFrame)
    → AllCounted m
    → add_chunk rt c m ≡ some (p, m')
    → AllCounted m'
unfolding add_chunk option bytes_of
add_chunk-AllCounted rt c m m' p h e = elim (Option-cases (Map.get c.frame_id m)) [
  | inl new ↦
      let first : PendingSessionFrame = record {
        chunk_count = c.count;
        next_index = 0;
        payload = [];
        bytes = 0;
      } in
      let w =
        set-AllCounted c.frame_id (push_chunk c first) m (push_chunk-counted c first refl) h in
      let same : Map.set c.frame_id (push_chunk c first) m ≡ m' = ground arith in
      subst AllCounted same w
  | inr (q, old) ↦
      let w =
        set-AllCounted c.frame_id (push_chunk c q) m
          (push_chunk-counted c q (get-AllCounted c.frame_id q m old h)) h in
      let same : Map.set c.frame_id (push_chunk c q) m ≡ m' = ground arith in
      subst AllCounted same w
]

pub add_chunk-IsWithin :
    (rt : Runtime) (c : Chunk) (m m' : Map PendingSessionFrame) (p : PendingSessionFrame)
    → IsWithin rt m
    → add_chunk rt c m ≡ some (p, m')
    → IsWithin rt m'
add_chunk-IsWithin rt c m m' p h e =
    let (few, light) = add_chunk-few rt c m m' p h.few e in
    let counted = add_chunk-AllCounted rt c m m' p h.counted e in
    record {
      few = few;
      light = omega (arith, light, total_bytes-AllCounted m' counted);
      counted = counted;
    }

pub delete-IsWithin :
    (rt : Runtime) (k : String) (m : Map PendingSessionFrame)
    → IsWithin rt m
    → IsWithin rt (Map.delete k m)
delete-IsWithin rt k m h =
    let counted = delete-AllCounted k m h.counted in
    record {
      few = omega (arith, h.few, Map.size-delete-le k m);
      light = omega (
        arith,
        h.light,
        total_bytes-delete-le k m,
        total_bytes-AllCounted m h.counted,
        total_bytes-AllCounted (Map.delete k m) counted,
      );
      counted = counted;
    }

module _ (rt : Runtime) (session_id frame_id : String) where
  -- The `index`-th of `count` chunks.
  abbrev pub chunk : ℕ → ℕ → String → Chunk
  chunk count index x = record {
    session_id = session_id;
    frame_id = frame_id;
    index = index;
    count = count;
    payload = x;
  }

  -- The chunks of a frame one after the other, the first of them number `index`.
  unfoldable pub feed :
      ℕ
      → ℕ
      → List String
      → Map PendingSessionFrame
      → Option (PendingSessionFrame × Map PendingSessionFrame)
  feed count index [] m = none
  feed count index (x ∷ []) m = add_chunk rt (chunk count index x) m
  feed count index (x ∷ y ∷ ys) m =
      option (add_chunk rt (chunk count index x) m) none
        (λ (p, m'). feed count (index + 1) (y ∷ ys) m')

module _ (rt : Runtime) (session_id frame_id : String) where
  add_next :
      (x : String) (p : PendingSessionFrame) (m : Map PendingSessionFrame)
      → Map.get frame_id m ≡ some p
      → total_bytes m + len x ≤ rt.limits.session_pending_bytes
      → let c = chunk rt session_id frame_id p.chunk_count p.next_index x in
        add_chunk rt c m ≡ some (push_chunk c p, Map.set frame_id (push_chunk c p) m)
  unfolding add_chunk option
  add_next x p m e room = ground (
    arith,
    total_bytes-set_old frame_id p
        (push_chunk (chunk rt session_id frame_id p.chunk_count p.next_index x) p) m e,
  )

  add_first :
      (count : ℕ) (x : String) (m : Map PendingSessionFrame)
      → Map.get frame_id m ≡ none
      → Map.size m < session_pending_frames
      → total_bytes m + len x ≤ rt.limits.session_pending_bytes
      → let c = chunk rt session_id frame_id count 0 x in
        let p : PendingSessionFrame = record {
          chunk_count = count;
          next_index = 0;
          payload = [];
          bytes = 0;
        } in
        add_chunk rt c m ≡ some (push_chunk c p, Map.set frame_id (push_chunk c p) m)
  unfolding add_chunk option
  add_first count x m e few room =
      let p : PendingSessionFrame = record {
        chunk_count = count;
        next_index = 0;
        payload = [];
        bytes = 0;
      } in
      ground (
        arith,
        total_bytes-set_new frame_id (push_chunk (chunk rt session_id frame_id count 0 x) p) m e,
      )

  -- The rest of a frame that is pending.
  feed_rest :
      (x : String) (xs : List String) (p : PendingSessionFrame) (m : Map PendingSessionFrame)
      → Map.get frame_id m ≡ some p
      → total_bytes m + bytes_of (x ∷ xs) ≤ rt.limits.session_pending_bytes
      → (q : PendingSessionFrame) × (m' : Map PendingSessionFrame) × (feed rt session_id frame_id
            p.chunk_count p.next_index
            (x ∷ xs)
            m
          ≡ some (q, m'))
        × (q.payload ≡ p.payload ++ x ∷ xs)
        × (q.next_index ≡ p.next_index + length (x ∷ xs))
        × (q.chunk_count ≡ p.chunk_count)
  unfolding feed bytes_of option
  feed_rest x [] p m e room = (_, _, add_next x p m e (omega arith), refl, omega arith, refl)
  feed_rest x (y ∷ ys) p m e room =
      let c = chunk rt session_id frame_id p.chunk_count p.next_index x in
      let p' = push_chunk c p in
      let m' = Map.set frame_id p' m in
      let grown : total_bytes m' + p.bytes ≡ total_bytes m + p'.bytes =
        total_bytes-set_old frame_id p p' m e in
      let (q, n, fed, payload, index, count) =
        feed_rest y ys p' m' (rw (Map.get-set frame_id frame_id p' m, eq_refl frame_id) refl)
          (omega arith) in
      (
        q,
        n,
        rw (add_next x p m e (omega arith), option) fed,
        payload ∙ append_assoc p.payload (x ∷ []) (y ∷ ys),
        omega arith,
        count,
      )

  -- The chunks of one frame, sent in order to a session that has room for one more frame and for
  -- their bytes, are all taken; the last one completes the frame, and its payload is the chunks in
  -- their order.
  pub chunks_reassemble :
      (x : String) (xs : List String) (m : Map PendingSessionFrame)
      → Map.get frame_id m ≡ none
      → Map.size m < session_pending_frames
      → total_bytes m + bytes_of (x ∷ xs) ≤ rt.limits.session_pending_bytes
      → (q : PendingSessionFrame) × (m' : Map PendingSessionFrame) × (feed rt session_id frame_id
            (length (x ∷ xs))
            0
            (x ∷ xs)
            m
          ≡ some (q, m'))
        × (q.payload ≡ x ∷ xs)
        × (q.next_index ≡ q.chunk_count)
  unfolding feed bytes_of option
  chunks_reassemble x [] m new few room =
      (_, _, add_first 1 x m new few (omega arith), refl, omega arith)
  chunks_reassemble x (y ∷ ys) m new few room =
      let count = length (x ∷ y ∷ ys) in
      let p' : PendingSessionFrame = record {
        chunk_count = count;
        next_index = 0 + 1;
        payload = x ∷ [];
        bytes = 0 + len x;
      } in
      let m' = Map.set frame_id p' m in
      let grown : total_bytes m' ≡ total_bytes m + p'.bytes =
        total_bytes-set_new frame_id p' m new in
      let (q, n, fed, payload, index, same) =
        feed_rest y ys p' m' (rw (Map.get-set frame_id frame_id p' m, eq_refl frame_id) refl)
          (omega arith) in
      (q, n, rw (add_first count x m new few (omega arith), option) fed, payload, omega arith)
