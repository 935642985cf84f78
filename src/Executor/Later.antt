-- ===== src/Executor/Later.antt =====
-- How the rows of executors and claims may change: under one statement, and under a whole flow.
use kazibee_home.Prelude.{
  ℕ, String, ◌≤◌, str_eq, eq_iff, Bool, true, false, some, [], ◌∷◌, ◌≡◌, ◌∙◌, refl, ap, arith,
  Bool-cases, Option-cases, inl, inr, subst,
}
use kazibee_home.Prelude.Map
use kazibee_home.Prelude.Map.{Map}
use kazibee_home.Executor.Rows.{ExecutorState, ExecutorRow, ClaimRow}
use kazibee_home.Executor.Store.{
  Database, Statement, statement, next_failure, update, is_claim_pending, without_pending,
}

abbrev pub rank : ExecutorState → ℕ
rank ExecutorState.pending = 0
rank ExecutorState.active = 1
rank ExecutorState.revoked = 2

-- An owner stays; the state only goes on from pending to active to revoked; and the generation of the
-- credential goes on with the state, and only with it.
pub record Moves (e f : ExecutorRow) : Type 0 where
  pub owner : (u : String) → e.owner_user_id ≡ some u → f.owner_user_id ≡ some u
  pub state : rank e.state ≤ rank f.state
  pub generation : e.credential_generation ≤ f.credential_generation
  pub in_step : rank e.state ≡ rank f.state → e.credential_generation ≡ f.credential_generation

pub record Later (d e : Database) : Type 0 where
  pub executors :
      (k : String) (r : ExecutorRow)
      → Map.get k d.executors ≡ some r
      → (s : ExecutorRow) × (Map.get k e.executors ≡ some s) × Moves r s
  pub decisions :
      (k : String) (c : ClaimRow)
      → Map.get k d.claims ≡ some c
      → is_claim_pending c.status ≡ false
      → Map.get k e.claims ≡ some c

pub Moves-refl : (e : ExecutorRow) → Moves e e
Moves-refl e = record {
  owner = λ u h. h;
  state = omega arith;
  generation = omega arith;
  in_step = λ h. refl;
}

Moves-trans : {e f g : ExecutorRow} → Moves e f → Moves f g → Moves e g
Moves-trans a b = record {
  owner = λ u h. b.owner u (a.owner u h);
  state = omega (arith, a.state, b.state);
  generation = omega (arith, a.generation, b.generation);
  in_step = λ h.
      a.in_step (omega (arith, a.state, b.state, h))
      ∙ b.in_step (omega (arith, a.state, b.state, h));
}

-- Databases with the same executors and claims.
pub later_same : {d e : Database} → e.executors ≡ d.executors → e.claims ≡ d.claims → Later d e
later_same p q = record {
  executors = λ k r h. (r, ap (Map.get k) p ∙ h, Moves-refl r);
  decisions = λ k c h n. ap (Map.get k) q ∙ h;
}

pub later_trans : {d e f : Database} → Later d e → Later e f → Later d f
later_trans a b = record {
  executors = λ k r h.
      let (s, hs, ms) = a.executors k r h in
      let (u, hu, mu) = b.executors k s hs in (u, hu, Moves-trans ms mu);
  decisions = λ k c h n. b.decisions k c (a.decisions k c h n) n;
}

pub record Keeps {A : Type 0} (m : Statement A) : Type 0 where
  pub run : (d : Database) → Later d (m d).1

pub keep_statement : {A : Type 0} (m : Statement A) → Keeps m → Keeps (statement m)
unfolding statement
keep_statement m h = record {
  run = λ d. elim (Bool-cases (next_failure d.failures)) [
    | inl e ↦ rw e (later_same refl refl)
    | inr e ↦ rw e (later_trans (later_same refl refl) (h.run _))
  ];
}

same_row :
    {V : Type 0} (key k : String) (m : Map V) (v r : V)
    → Map.get key m ≡ some v
    → Map.get k m ≡ some r
    → str_eq key k ≡ true
    → v ≡ r
same_row key k m v r n h x = let e : key ≡ k = (eq_iff key k).0 x in cc

-- An update of executors whose change moves each row that passes its test.
pub update_moves :
    (d : Database) (key : String) (test : ExecutorRow → Bool) (change : ExecutorRow → ExecutorRow)
    → ((r : ExecutorRow) → test r ≡ true → Moves r (change r))
    → Later d (record d { executors = update key test change d.executors })
unfolding update
update_moves d key test change good = record {
  executors = λ k r h. elim (Option-cases (Map.get key d.executors)) [
    | inl n ↦ rw (n, update) (r, h, Moves-refl r)
    | inr (v, n) ↦ elim (Bool-cases (test v)) [
      | inr f ↦ rw (n, update, f) (r, h, Moves-refl r)
      | inl f ↦ rw (n, update, f) (changed k r v h n f)
    ]
  ];
  decisions = λ k c h n. h;
}
  where
    changed :
        (k : String) (r v : ExecutorRow)
        → Map.get k d.executors ≡ some r
        → Map.get key d.executors ≡ some v
        → test v ≡ true
        → (s : ExecutorRow) × (Map.get k (Map.set key (change v) d.executors) ≡ some s) × Moves r s
    changed k r v h n f = elim (Bool-cases (str_eq key k)) [
      | inr x ↦ (r, rw (Map.get-set key k (change v) d.executors, x) h, Moves-refl r)
      | inl x ↦ (
        change v,
        rw (Map.get-set key k (change v) d.executors, x) refl,
        subst (λ y. Moves y (change v)) (same_row key k d.executors v r n h x) (good v f),
      )
    ]

-- A new row, where there was none with its key.
pub later_new_executor :
    (d : Database) (e : ExecutorRow)
    → Map.has e.executor_id d.executors ≡ false
    → Later d (record d { executors = Map.set e.executor_id e d.executors })
later_new_executor d e absent = record {
  executors = λ k r h. (r, kept k r h, Moves-refl r);
  decisions = λ k c h n. h;
}
  where
    kept :
        (k : String) (r : ExecutorRow)
        → Map.get k d.executors ≡ some r
        → Map.get k (Map.set e.executor_id e d.executors) ≡ some r
    kept k r h =
        ground (arith, Map.get-set e.executor_id k e d.executors, eq_iff e.executor_id k, h, absent)

-- An update of claims that touches only pending ones.
pub update_pending :
    (d : Database) (key : String) (test : ClaimRow → Bool) (change : ClaimRow → ClaimRow)
    → ((c : ClaimRow) → test c ≡ true → is_claim_pending c.status ≡ true)
    → Later d (record d { claims = update key test change d.claims })
unfolding update
update_pending d key test change good = record {
  executors = λ k r h. (r, h, Moves-refl r);
  decisions = λ k c h p. elim (Option-cases (Map.get key d.claims)) [
    | inl n ↦ rw (n, update) h
    | inr (v, n) ↦ elim (Bool-cases (test v)) [
      | inr f ↦ rw (n, update, f) h
      | inl f ↦ rw (n, update, f) (other k c v h p n (good v f))
    ]
  ];
}
  where
    other :
        (k : String) (c v : ClaimRow)
        → Map.get k d.claims ≡ some c
        → is_claim_pending c.status ≡ false
        → Map.get key d.claims ≡ some v
        → is_claim_pending v.status ≡ true
        → Map.get k (Map.set key (change v) d.claims) ≡ some c
    other k c v h p n g = elim (Bool-cases (str_eq key k)) [
      | inr x ↦ rw (Map.get-set key k (change v) d.claims, x) h
      | inl x ↦ let e = same_row key k d.claims v c n h x in grind arith
    ]

-- A new claim, where there was none with its id.
pub later_new_claim :
    (d : Database) (c : ClaimRow)
    → Map.has c.claim_id d.claims ≡ false
    → Later d (record d { claims = Map.set c.claim_id c d.claims })
later_new_claim d c absent = record {
  executors = λ k r h. (r, h, Moves-refl r);
  decisions = λ k b h p.
      ground (arith, Map.get-set c.claim_id k c d.claims, eq_iff c.claim_id k, h, absent);
}

-- What deletes pending claims keeps every other.
pub without_pending-get :
    (id k : String) (m : Map ClaimRow) (c : ClaimRow)
    → Map.get k m ≡ some c
    → is_claim_pending c.status ≡ false
    → Map.get k (without_pending id m) ≡ some c
unfolding without_pending Map.get
without_pending-get id k [] c h p = h
without_pending-get id k ((j, b) ∷ m) c h p = ground (arith, without_pending-get id k m c, h, p)
