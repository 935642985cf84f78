-- ===== src/Executor/Keepers.antt =====
-- Flows that keep owners, generations and decisions, piece by piece.
use kazibee_home.Prelude.{if◌then◌else◌, Bool, true, false, Option, none, some, refl}
use kazibee_home.Executor.Store.{Database, Reply, lost, got, Statement}
use kazibee_home.Executor.Flows.{Flow, answer, roll_back, resume, ask, option, ended, transact}
use kazibee_home.Executor.Later.{Keeps, Later, later_same, later_trans}

pub record Holds {R : Type 0} (m : Flow R) : Type 0 where
  pub run : (d : Database) → Later d (m d).2

pub answer-Holds : {R : Type 0} (r : R) → Holds (answer r)
unfolding answer
answer-Holds r = record { run = λ d. later_same refl refl }

pub roll_back-Holds : {R : Type 0} (r : R) → Holds (roll_back r)
unfolding roll_back
roll_back-Holds r = record { run = λ d. later_same refl refl }

pub ask-Holds :
    {A R : Type 0} (m : Statement A) (fail : Bool → Flow R) (k : A → Flow R)
    → Keeps m
    → ((u : Bool) → Holds (fail u))
    → ((a : A) → Holds (k a))
    → Holds (ask m fail k)
unfolding ask resume
ask-Holds {A} {R} m fail k km kf kk = record { run = λ d. resumed d (m d) (km.run d) }
  where
    resumed : (d : Database) (o : Reply A × Database) → Later d o.1 → Later d (resume o fail k).2
    resumed d (lost u, e) h = later_trans h ((kf u).run e)
    resumed d (got a, e) h = later_trans h ((kk a).run e)

pub option-Holds :
    {A R : Type 0} (o : Option A) (absent : Flow R) (present : A → Flow R)
    → Holds absent
    → ((a : A) → Holds (present a))
    → Holds (option o absent present)
unfolding option
option-Holds none absent present h k = h
option-Holds (some a) absent present h k = k a

pub if-Holds :
    {R : Type 0} (b : Bool) (f g : Flow R) → Holds f → Holds g → Holds (if b then f else g)
if-Holds true f g hf hg = hf
if-Holds false f g hf hg = hg

-- A transaction keeps what its flow keeps, marked or not.
pub transact_later : {R : Type 0} (m : Flow R) → Holds m → (d : Database) → Later d (transact m d).1
unfolding transact ended
transact_later {R} m h d = at_end (m d) (h.run d)
  where
    at_end : (o : R × Bool × Database) → Later d o.2 → Later d (ended d o).1
    at_end (r, true, e) k = later_same refl refl
    at_end (r, false, e) k = k
