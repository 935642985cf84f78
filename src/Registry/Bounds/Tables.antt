-- ===== src/Registry/Bounds/Tables.antt =====
-- What a registry with its tables in bounds is, and the steps that keep it so.
use kazibee_home.Prelude.{ℕ, String, ◌≤◌, List, [], ◌∷◌, arith, Option-cases, inl, inr}
use kazibee_home.Prelude.Map
use kazibee_home.Prelude.Map.{Map, IsUnique}
use kazibee_home.Registry.Streams.{Stream}
use kazibee_home.Registry.{
  Connection, Registry, PendingHello, hello, take_over, write_to, notify_disconnected,
  prune_pending, prune_stale, mark_stale, prune_hellos, prune_tombstones, evict, max_pending_hellos,
  max_stale_tombstones,
}

pub record IsBounded (r : Registry) : Type 0 where
  pub one_connection : IsUnique r.connections
  pub hellos : Map.size r.pending_hello ≤ max_pending_hellos
  pub tombstones : Map.size r.stale_executors ≤ max_stale_tombstones

size-prune_hellos-le : (now : ℕ) (m : Map PendingHello) → Map.size (prune_hellos now m) ≤ Map.size m
unfolding prune_hellos
size-prune_hellos-le now [] = omega arith
size-prune_hellos-le now ((k, p) ∷ m) = ground (arith, size-prune_hellos-le now m)

size-prune_tombstones-le : (now : ℕ) (m : Map ℕ) → Map.size (prune_tombstones now m) ≤ Map.size m
unfolding prune_tombstones
size-prune_tombstones-le now [] = omega arith
size-prune_tombstones-le now ((k, p) ∷ m) = ground (arith, size-prune_tombstones-le now m)

size-evict-le {ℓ} : {V : Type ℓ} (most : ℕ) (m : Map V) → Map.size (evict most m) ≤ most
unfolding evict
size-evict-le most [] = omega arith
size-evict-le most ((k, v) ∷ m) = ground (arith, size-evict-le most m)

pub keep_prune_pending : (now : ℕ) (r : Registry) → IsBounded r → IsBounded (prune_pending now r)
unfolding prune_pending
keep_prune_pending now r b = record {
  one_connection = b.one_connection;
  hellos = omega (arith, b.hellos, size-prune_hellos-le now r.pending_hello);
  tombstones = b.tombstones;
}

pub keep_prune_stale : (now : ℕ) (r : Registry) → IsBounded r → IsBounded (prune_stale now r)
unfolding prune_stale
keep_prune_stale now r b = record {
  one_connection = b.one_connection;
  hellos = b.hellos;
  tombstones = omega (arith, b.tombstones, size-prune_tombstones-le now r.stale_executors);
}

pub keep_mark_stale :
    (e : String) (now : ℕ) (r : Registry) → IsBounded r → IsBounded (mark_stale e now r)
unfolding mark_stale
keep_mark_stale e now r b = record {
  one_connection = b.one_connection;
  hellos = b.hellos;
  tombstones = size-evict-le max_stale_tombstones _;
}

pub keep_hello :
    (now : ℕ) (e : String) (g : ℕ) (i : String) (r : Registry)
    → IsBounded r
    → IsBounded (hello now e g i r)
unfolding hello
keep_hello now e g i r b =
    let b' = keep_prune_pending now r b in
    record {
      one_connection = b'.one_connection;
      hellos = size-evict-le max_pending_hellos _;
      tombstones = b'.tombstones;
    }

-- Forgetting a connection, a tombstone or a hello.
pub keep_drop :
    (e : String) (r : Registry) (d : List String) (ws : List Stream)
    → IsBounded r
    → IsBounded
        (record r { connections = Map.delete e r.connections; disconnected = d; streams = ws })
keep_drop e r d ws b = record {
  one_connection = Map.delete-IsUnique e r.connections b.one_connection;
  hellos = b.hellos;
  tombstones = b.tombstones;
}

pub keep_forget_hello :
    (e : String) (r : Registry)
    → IsBounded r
    → IsBounded (record r { pending_hello = Map.delete e r.pending_hello })
keep_forget_hello e r b = record {
  one_connection = b.one_connection;
  hellos = omega (arith, b.hellos, Map.size-delete-le e r.pending_hello);
  tombstones = b.tombstones;
}

pub keep_forget_stale :
    (e : String) (r : Registry)
    → IsBounded r
    → IsBounded (record r { stale_executors = Map.delete e r.stale_executors })
keep_forget_stale e r b = record {
  one_connection = b.one_connection;
  hellos = b.hellos;
  tombstones = omega (arith, b.tombstones, Map.size-delete-le e r.stale_executors);
}

pub keep_set :
    (e : String) (c : Connection) (r : Registry)
    → IsBounded r
    → IsBounded (record r {
      connections = Map.set e c r.connections;
      stale_executors = Map.delete e r.stale_executors;
    })
keep_set e c r b = record {
  one_connection = Map.set-IsUnique e c r.connections b.one_connection;
  hellos = b.hellos;
  tombstones = omega (arith, b.tombstones, Map.size-delete-le e r.stale_executors);
}

pub keep_streams :
    (r : Registry) (d : List String) (ws : List Stream)
    → IsBounded r
    → IsBounded (record r { disconnected = d; streams = ws })
keep_streams r d ws b = record {
  one_connection = b.one_connection;
  hellos = b.hellos;
  tombstones = b.tombstones;
}

pub keep_take_over : (e : String) (r : Registry) → IsBounded r → IsBounded (take_over e r)
unfolding take_over write_to notify_disconnected
keep_take_over e r b = elim (Option-cases (Map.get e r.connections)) [
  | inl n ↦ rw (n, take_over) b
  | inr (c, n) ↦ rw (n, take_over) (keep_drop e r _ _ b)
]
