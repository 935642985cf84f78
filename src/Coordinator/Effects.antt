-- ===== src/Coordinator/Effects.antt =====
-- Programs over a coordinator's state that may throw, and the operations on sockets.
use kazibee_home.Prelude.{
  ℕ, String, ◌+◌, ◌==◌, str_eq, if◌then◌else◌, Bool, true, false, Option, none, some, List, [], ◌∷◌,
  ◌++◌,
}
use kazibee_home.Coordinator.State.{
  Coordinator, Socket, Attachment, viewer, Message, Runtime, Response,
}

pub data Result (A : Type 0) : Type 0 where
  ok : A → Result A
  threw : Result A

-- What was done before a throw stays done.
abbrev pub M : Type 0 → Type 0
M A = Coordinator → Result A × Coordinator

unfoldable pub after : {A B : Type 0} → Result A × Coordinator → (A → M B) → Result B × Coordinator
after (ok a, s) f = f a s
after (threw, s) f = (threw, s)

infixl 5 ◌>>=◌ ◌>>◌
unfoldable pub ◌>>=◌ : {A B : Type 0} → M A → (A → M B) → M B
unfolding after
◌>>=◌ m f s = after (m s) f

unfoldable pub ◌>>◌ : {B : Type 0} → M (Unit {0}) → M B → M B
unfolding after
◌>>◌ m k s = after (m s) (λ _. k)

unfoldable pub return : {A : Type 0} → A → M A
return a s = (ok a, s)

unfoldable pub done : M (Unit {0})
done s = (ok tt, s)

unfoldable pub throw : {A : Type 0} → M A
throw s = (threw, s)

unfoldable pub modify : (Coordinator → Coordinator) → M (Unit {0})
modify f s = (ok tt, f s)

-- Runs a program that is chosen by the state.
unfoldable pub with_state : {A : Type 0} → (Coordinator → M A) → M A
with_state f s = f s s

unfoldable pub rescue : {A : Type 0} → Result A × Coordinator → M A → Result A × Coordinator
rescue (ok a, s) h = (ok a, s)
rescue (threw, s) h = h s

-- `try { m } catch { h }`
unfoldable pub attempt : {A : Type 0} → M A → M A → M A
unfolding rescue
attempt m h s = rescue (m s) h

-- `if (o) present(o) else absent`
unfoldable pub option {ℓ} : {A : Type 0} {B : Type ℓ} → Option A → B → (A → B) → B
option none absent present = absent
option (some a) absent present = present a

unfoldable pub for_each : {A : Type 0} → List A → (A → M (Unit {0})) → M (Unit {0})
for_each [] f = done
for_each (x ∷ xs) f = f x >> for_each xs f

-- `isViewerAttachment`
abbrev pub is_viewer : Option Attachment → Bool
is_viewer (some (viewer _)) = true
is_viewer _ = false

abbrev pub update_socket : ℕ → (Socket → Socket) → List Socket → List Socket
update_socket h f [] = []
update_socket h f (w ∷ ws) = (if w.handle == h then f w else w) ∷ update_socket h f ws

unfoldable pub attachment_of : ℕ → List Socket → Option Attachment
attachment_of h [] = none
attachment_of h (w ∷ ws) = if w.handle == h then w.attachment else attachment_of h ws

module _ (rt : Runtime) where
  unfoldable pub send : ℕ → Message → M (Unit {0})
  send h msg s = if rt.send_throws s.sockets h msg then (threw, s) else (
    ok tt,
    record s { sockets = update_socket h (λ w. record w { sent = w.sent ++ msg ∷ [] }) s.sockets },
  )

  -- A second close of a socket changes nothing.
  unfoldable pub close : ℕ → ℕ → String → M (Unit {0})
  close h code reason s =
      if rt.close_throws s.sockets h
      then (threw, s)
      else (ok tt, record s { sockets = update_socket h mark s.sockets })
    where
      mark : Socket → Socket
      mark w = elim w.closed [ none ↦ record w { closed = some (code, reason) } | some c ↦ w ]

-- `acceptWebSocket` and `serializeAttachment` of a new socket
unfoldable pub accept_socket : Attachment → M ℕ
accept_socket a s = (
  ok s.next_handle,
  record s {
    sockets =
        s.sockets
        ++ record {
          handle = s.next_handle;
          attachment = some a;
          answered_at = none;
          sent = [];
          closed = none;
        }
          ∷ [];
    next_handle = s.next_handle + 1;
  },
)

-- Resolving the promise of a dispatched command, and of a session invoke.
abbrev pub answer_route : ℕ → Response → M (Unit {0})
answer_route t r = modify (λ s. record s { route_replies = (t, r) ∷ s.route_replies })

abbrev pub answer_invoke : ℕ → Response → M (Unit {0})
answer_invoke t r = modify (λ s. record s { invoke_replies = (t, r) ∷ s.invoke_replies })

-- `executorSocket`: the newest socket that is no viewer.
unfoldable pub executor_socket : List Socket → Option ℕ
executor_socket [] = none
executor_socket (w ∷ ws) = elim (executor_socket ws) [
  | some h ↦ some h
  | none ↦ if is_viewer w.attachment then none else some w.handle
]

abbrev views : String → Option Attachment → Bool
views session_id (some (viewer a)) = str_eq a.session_id session_id
views session_id _ = false

-- `viewerSocket`
unfoldable pub viewer_socket : String → List Socket → Option ℕ
viewer_socket session_id [] = none
viewer_socket session_id (w ∷ ws) =
    if views session_id w.attachment then some w.handle else viewer_socket session_id ws
