-- ===== src/Coordinator/Total.antt =====
-- Programs that never throw: those whose every send and close stands in a `try`.
use kazibee_home.Prelude.{
  ℕ, String, Bool, true, false, if◌then◌else◌, ◌≡◌, refl, Option, none, some, List, [], ◌∷◌,
}
use kazibee_home.Coordinator.State.{Coordinator, Runtime, ViewerAttachment, viewer}
use kazibee_home.Coordinator.Effects.{
  Result, ok, threw, M, after, rescue, ◌>>◌, with_state, attempt, option, for_each, modify, done,
}
use kazibee_home.Coordinator.Session.{close_viewer, close_all_viewers, reject_ephemeral_offline}
use kazibee_home.Coordinator.Handler.{clear_presence, on_message}

pub record IsTotal (m : M (Unit {0})) : Type 0 where
  pub run : (s : Coordinator) → (m s).0 ≡ ok tt

pub IsTotal-done : IsTotal done
unfolding done
IsTotal-done = record { run = λ s. refl }

pub IsTotal-modify : (f : Coordinator → Coordinator) → IsTotal (modify f)
unfolding modify
IsTotal-modify f = record { run = λ s. refl }

after-ok :
    (r : Result (Unit {0}) × Coordinator) (k : M (Unit {0}))
    → r.0 ≡ ok tt
    → after r (λ _. k) ≡ k r.1
unfolding after
after-ok (ok tt, s) k e = refl
after-ok (threw, s) k e = cc

-- After a total program the next one runs.
pub seq-eq :
    {m : M (Unit {0})} → IsTotal m → (k : M (Unit {0})) (s : Coordinator) → (m >> k) s ≡ k (m s).1
unfolding ◌>>◌
seq-eq {m} t k s = after-ok (m s) k (t.run s)

pub IsTotal-seq : {m k : M (Unit {0})} → IsTotal m → IsTotal k → IsTotal (m >> k)
IsTotal-seq {m = m} {k = k} tm tk = record { run = λ s. rw (seq-eq tm k s) (tk.run (m s).1) }

rescue-ok :
    (r : Result (Unit {0}) × Coordinator) (h : M (Unit {0})) → IsTotal h → (rescue r h).0 ≡ ok tt
unfolding rescue
rescue-ok (ok tt, s) h t = refl
rescue-ok (threw, s) h t = t.run s

pub IsTotal-attempt : (m : M (Unit {0})) {h : M (Unit {0})} → IsTotal h → IsTotal (attempt m h)
unfolding attempt
IsTotal-attempt m {h = h} t = record { run = λ s. rescue-ok (m s) h t }

pub IsTotal-with :
    {f : Coordinator → M (Unit {0})} → ((s : Coordinator) → IsTotal (f s)) → IsTotal (with_state f)
unfolding with_state
IsTotal-with t = record { run = λ s. (t s).run s }

pub IsTotal-option :
    {X : Type 0} (o : Option X) {absent : M (Unit {0})} {present : X → M (Unit {0})}
    → IsTotal absent
    → ((x : X) → IsTotal (present x))
    → IsTotal (option o absent present)
unfolding option
IsTotal-option none ta tp = ta
IsTotal-option (some x) ta tp = tp x

pub IsTotal-if :
    (b : Bool) {m n : M (Unit {0})} → IsTotal m → IsTotal n → IsTotal (if b then m else n)
IsTotal-if true tm tn = tm
IsTotal-if false tm tn = tn

pub IsTotal-for_each :
    {A : Type 0} (xs : List A) {f : A → M (Unit {0})}
    → ((x : A) → IsTotal (f x))
    → IsTotal (for_each xs f)
unfolding for_each
IsTotal-for_each [] t = IsTotal-done
IsTotal-for_each (x ∷ xs) t = IsTotal-seq (t x) (IsTotal-for_each xs t)

pub ruleset total_rules = (
  IsTotal-done, IsTotal-modify, IsTotal-seq, IsTotal-attempt, IsTotal-with, IsTotal-option,
  IsTotal-if, IsTotal-for_each,
)

module _ (rt : Runtime) where
  IsTotal-close_viewer : (h : ℕ) (r : String) → IsTotal (close_viewer rt h r)
  unfolding close_viewer
  IsTotal-close_viewer h r = search total_rules

  IsTotal-close_all : (r : String) → IsTotal (close_all_viewers rt r)
  unfolding close_all_viewers
  IsTotal-close_all r = search (total_rules, IsTotal-close_viewer) depth 10

  IsTotal-offline : IsTotal reject_ephemeral_offline
  unfolding reject_ephemeral_offline
  IsTotal-offline = search total_rules

  pub IsTotal-clear : (f : String) → IsTotal (clear_presence rt f)
  unfolding clear_presence
  IsTotal-clear f = search (total_rules, IsTotal-close_all, IsTotal-offline) depth 10

  -- A viewer's message never makes the coordinator throw, whatever it says and whatever the sockets
  -- do.
  pub viewer_message-IsTotal :
      (now h : ℕ) (a : ViewerAttachment) (m : String) → IsTotal (on_message rt now h (viewer a) m)
  unfolding on_message
  viewer_message-IsTotal now h a m = search total_rules
