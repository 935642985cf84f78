-- ===== src/Coordinator/Closing.antt =====
-- What the close of a channel does to its routes and to the stored presence.
use kazibee_home.Prelude.{
  ℕ, String, str_eq, if◌then◌else◌, ◌≡◌, ◌⊎◌, refl, ap, Option, none, some, List, [], ◌∷◌, ◌⊎◌, inl,
  inr, Bool-cases, Option-cases,
}
use kazibee_home.Prelude.Map
use kazibee_home.Prelude.Map.{Map}
use kazibee_home.Coordinator.State.{
  Coordinator, Runtime, Response, ChannelAttachment, Attachment, channel, PresenceRecord,
}
use kazibee_home.Coordinator.Effects.{◌>>◌, done, modify, with_state, option, attachment_of}
use kazibee_home.Coordinator.Keeps.{Keeps, keep_rules, keep_seq, keep_modify, keep_send, keep_close}
use kazibee_home.Coordinator.Desk.{Desk}
use kazibee_home.Coordinator.Total.{seq-eq, IsTotal-clear}
use kazibee_home.Coordinator.Routes.{lose_routes}
use kazibee_home.Coordinator.Session.{close_viewer, close_all_viewers, reject_ephemeral_offline}
use kazibee_home.Coordinator.Handler.{clear_presence, on_close, web_socket_close}
use kazibee_home.Coordinator.Run.{closed, step}

step-closed :
    (rt : Runtime) (s : Coordinator) (h : ℕ) (a : Attachment)
    → attachment_of h s.sockets ≡ some a
    → step rt s (closed h) ≡ (on_close rt a s).1
unfolding step web_socket_close with_state option
step-closed rt s h a e = ap (λ o. (option o done (on_close rt) s).1) e

-- The answer `x` was given to the ticket `t`.
abbrev pub Given : ℕ → Response → List (ℕ × Response) → Type 0
Given t x [] = ⊥
Given t x ((u, y) ∷ xs) = ((u ≡ t) × (y ≡ x)) ⊎ Given t x xs

-- What the stored presence is after a channel closes.
module _ (R : Option PresenceRecord → Type 0) where
  abbrev OnPresence : Coordinator → Type 0
  OnPresence s = R s.presence

module _ (rt : Runtime) (R : Option PresenceRecord → Type 0) where
  presence_close_viewer : (h : ℕ) (r : String) → Keeps (OnPresence R) (close_viewer rt h r)
  unfolding close_viewer
  presence_close_viewer h r =
      search
        (
          keep_rules,
          keep_send {P = OnPresence R} (λ s ws n p. p) rt,
          keep_close {P = OnPresence R} (λ s ws n p. p) rt,
        )
        depth 12

  presence_close_all : (r : String) → Keeps (OnPresence R) (close_all_viewers rt r)
  unfolding close_all_viewers
  presence_close_all r = search (keep_rules, presence_close_viewer) depth 12

  presence_offline : Keeps (OnPresence R) reject_ephemeral_offline
  unfolding reject_ephemeral_offline
  presence_offline = search keep_rules

pub presence_without : String → Option PresenceRecord → Option PresenceRecord
presence_without f none = none
presence_without f (some r) = if str_eq r.fence f then none else some r

clear_presence-presence :
    (rt : Runtime) (f : String) (s : Coordinator)
    → (clear_presence rt f s).1.presence ≡ presence_without f s.presence
unfolding clear_presence with_state option done presence_without ◌>>◌ modify
clear_presence-presence rt f s = elim (Option-cases s.presence) [
  | inl e ↦ rw (e, option, presence_without) refl
  | inr (r, e) ↦ elim (Bool-cases (str_eq r.fence f)) [
    | inl mine ↦
        rw (e, option, presence_without, mine) (wiped.run (record s { presence = none }) refl)
    | inr other ↦ rw (e, option, presence_without, other) refl
  ]
]
  where
    wiped : Keeps (OnPresence (λ o. o ≡ none)) (
        modify (λ s'. record s' { presence = none })
        >> (close_all_viewers rt "executor-offline" >> reject_ephemeral_offline))
    wiped =
        keep_seq (keep_modify _ (λ s' p. refl))
          (keep_seq (presence_close_all rt (λ o. o ≡ none) _) (presence_offline rt (λ o. o ≡ none)))

-- A channel that closes clears the stored presence if it holds that record's fence, and leaves it as
-- it is otherwise: a replaced channel does not take its successor offline.
pub close_clears_own_presence :
    (rt : Runtime) (s : Coordinator) (h : ℕ) (a : ChannelAttachment)
    → attachment_of h s.sockets ≡ some (channel a)
    → (step rt s (closed h)).presence ≡ presence_without a.fence s.presence
unfolding on_close lose_routes modify
close_clears_own_presence rt s h a e =
    rw (step-closed rt s h (channel a) e, seq-eq (IsTotal-clear rt a.fence) (lose_routes a.fence) s)
      (clear_presence-presence rt a.fence s)
