-- ===== src/Executor/Quiet.antt =====
-- Flows that leave the rows as they are, or are marked to roll back, wherever their answer does not
-- pass a test; piece by piece.
use kazibee_home.Prelude.{
  String, if◌then◌else◌, Bool, true, false, Option, none, some, List, ◌≡◌, ◌∙◌, refl, ◌⊎◌, inl, inr,
  Bool-cases,
}
use kazibee_home.Executor.Store.{
  Database, Reply, lost, got, Statement, statement, next_failure, find_executor, find_claim,
  find_claim_by_key,
}
use kazibee_home.Executor.Flows.{Flow, answer, roll_back, resume, ask, option, ended, transact}

-- The tables, apart from which of the next statements fail.
abbrev pub rows : Database → Database
rows d = record d { failures = List.[] }

pub record IsRead {A : Type 0} (m : Statement A) : Type 0 where
  pub run : (d : Database) → rows (m d).1 ≡ rows d

-- A flow that is marked to roll back wherever its answer does not pass the test.
pub record Clean {R : Type 0} (good : R → Bool) (m : Flow R) : Type 0 where
  pub run : (d : Database) → (good (m d).0 ≡ true) ⊎ ((m d).1 ≡ true)

-- The same, or it leaves the rows as they are.
pub record Quiet {R : Type 0} (good : R → Bool) (m : Flow R) : Type 0 where
  pub run : (d : Database) → ((good (m d).0 ≡ true) ⊎ ((m d).1 ≡ true)) ⊎ (rows (m d).2 ≡ rows d)

module _ {R : Type 0} (good : R → Bool) where
  pub answer-Clean : (r : R) → good r ≡ true → Clean good (answer r)
  unfolding answer
  answer-Clean r h = record { run = λ d. inl h }

  pub roll_back-Clean : (r : R) → Clean good (roll_back r)
  unfolding roll_back
  roll_back-Clean r = record { run = λ d. inr refl }

  pub ask-Clean :
      {A : Type 0} (m : Statement A) (fail : Bool → Flow R) (k : A → Flow R)
      → ((u : Bool) → Clean good (fail u))
      → ((a : A) → Clean good (k a))
      → Clean good (ask m fail k)
  unfolding ask resume
  ask-Clean {A} m fail k hf hk = record { run = λ d. resumed (m d) }
    where
      resumed :
          (o : Reply A × Database)
          → (good (resume o fail k).0 ≡ true) ⊎ ((resume o fail k).1 ≡ true)
      resumed (lost u, e) = (hf u).run e
      resumed (got a, e) = (hk a).run e

  pub option-Clean :
      {A : Type 0} (o : Option A) (absent : Flow R) (present : A → Flow R)
      → Clean good absent
      → ((a : A) → Clean good (present a))
      → Clean good (option o absent present)
  unfolding option
  option-Clean none absent present h k = h
  option-Clean (some a) absent present h k = k a

  pub if-Clean :
      (b : Bool) (f g : Flow R) → Clean good f → Clean good g → Clean good (if b then f else g)
  if-Clean true f g hf hg = hf
  if-Clean false f g hf hg = hg

  pub Clean-Quiet : (m : Flow R) → Clean good m → Quiet good m
  Clean-Quiet m h = record { run = λ d. inl (h.run d) }

  pub answer-Quiet : (r : R) → Quiet good (answer r)
  unfolding answer
  answer-Quiet r = record { run = λ d. inr refl }

  pub ask-Quiet :
      {A : Type 0} (m : Statement A) (fail : Bool → Flow R) (k : A → Flow R)
      → IsRead m
      → ((u : Bool) → Quiet good (fail u))
      → ((a : A) → Quiet good (k a))
      → Quiet good (ask m fail k)
  unfolding ask resume
  ask-Quiet {A} m fail k hm hf hk = record { run = λ d. resumed d (m d) (hm.run d) }
    where
      over :
          (d e : Database) (o : R × Bool × Database)
          → rows e ≡ rows d
          → ((good o.0 ≡ true) ⊎ (o.1 ≡ true)) ⊎ (rows o.2 ≡ rows e)
          → ((good o.0 ≡ true) ⊎ (o.1 ≡ true)) ⊎ (rows o.2 ≡ rows d)
      over d e o h (inl x) = inl x
      over d e o h (inr x) = inr (x ∙ h)

      resumed :
          (d : Database) (o : Reply A × Database)
          → rows o.1 ≡ rows d
          → ((good (resume o fail k).0 ≡ true) ⊎ ((resume o fail k).1 ≡ true))
            ⊎ (rows (resume o fail k).2 ≡ rows d)
      resumed d (lost u, e) h = over d e (fail u e) h ((hf u).run e)
      resumed d (got a, e) h = over d e (k a e) h ((hk a).run e)

  pub option-Quiet :
      {A : Type 0} (o : Option A) (absent : Flow R) (present : A → Flow R)
      → Quiet good absent
      → ((a : A) → Quiet good (present a))
      → Quiet good (option o absent present)
  unfolding option
  option-Quiet none absent present h k = h
  option-Quiet (some a) absent present h k = k a

  pub if-Quiet :
      (b : Bool) (f g : Flow R) → Quiet good f → Quiet good g → Quiet good (if b then f else g)
  if-Quiet true f g hf hg = hf
  if-Quiet false f g hf hg = hg

  -- A transaction of a quiet flow whose answer does not pass leaves the rows as they were.
  pub transact-Quiet :
      (m : Flow R) (d : Database)
      → Quiet good m
      → good (transact m d).0 ≡ false
      → rows (transact m d).1 ≡ rows d
  unfolding transact ended
  transact-Quiet m d q h = at_end (m d) (q.run d) h
    where
      at_end :
          (o : R × Bool × Database)
          → ((good o.0 ≡ true) ⊎ (o.1 ≡ true)) ⊎ (rows o.2 ≡ rows d)
          → good (ended d o).0 ≡ false
          → rows (ended d o).1 ≡ rows d
      at_end (r, true, e) c g = refl
      at_end (r, false, e) (inl (inl x)) g = cc
      at_end (r, false, e) (inl (inr x)) g = cc
      at_end (r, false, e) (inr x) g = x

pub is_read : {A : Type 0} (f : Database → Reply A) → IsRead (statement (λ db. (f db, db)))
unfolding statement
is_read f = record {
  run = λ d. elim (Bool-cases (next_failure d.failures)) [ inl e ↦ rw e refl | inr e ↦ rw e refl ];
}

pub find_executor-IsRead : (id : String) → IsRead (find_executor id)
unfolding find_executor
find_executor-IsRead id = is_read _

pub find_claim-IsRead : (id : String) → IsRead (find_claim id)
unfolding find_claim
find_claim-IsRead id = is_read _

pub find_claim_by_key-IsRead : (key : String) → IsRead (find_claim_by_key key)
unfolding find_claim_by_key
find_claim_by_key-IsRead key = is_read _
