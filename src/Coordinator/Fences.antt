-- ===== src/Coordinator/Fences.antt =====
-- The channel fence: a channel speaks for the routes and the presence of its own fence alone.
use kazibee_home.Prelude.{ℕ, String, str_eq, true, false, ◌≡◌, refl, ap, none, some, arith, eq_iff}
use kazibee_home.Prelude.Map
use kazibee_home.Prelude.Map.{Map, IsUnique}
use kazibee_home.Json.{Json, prop}
use kazibee_home.Coordinator.State.{
  Coordinator, Runtime, InflightRoute, ChannelAttachment, ViewerAttachment, Attachment, channel,
  viewer,
}
use kazibee_home.Coordinator.Effects.{
  close, ◌>>◌, after, done, modify, with_state, option, attachment_of,
}
use kazibee_home.Coordinator.Keeps.{Keeps, keep_rules, keep_found, keep_done}
use kazibee_home.Coordinator.Desk.{
  Desk, OnDesk, desk, keep_sent, keep_hello, keep_event, keep_on_session_frame,
  keep_on_session_close, keep_violation, keep_viewer_message, keep_closed,
}
use kazibee_home.Coordinator.Routes.{on_accepted, on_result}
use kazibee_home.Coordinator.Handler.{
  Inbound, text, binary, on_frame, check_frame, on_channel_message, web_socket_message, on_message,
}
use kazibee_home.Coordinator.Run.{message, step}

-- The route `r` stands under the operation id `k`.
abbrev Holds : String → InflightRoute → Desk → Type 0
Holds k r d = Map.get k d.routes ≡ some r

module _ (rt : Runtime) (a : ChannelAttachment) (k : String) (r : InflightRoute)
    (other : str_eq r.fence a.fence ≡ false) where
  other_result : (f : Json) → Keeps (OnDesk (Holds k r)) (on_result rt a f)
  unfolding on_result ◌>>◌ after modify done
  other_result f =
      let op = rt.to_text (prop "operationId" f) in
      keep_found (λ s. Map.get op s.routes) _ keep_done
        (λ s q e h. ground (arith, Map.get-delete op k s.routes, eq_iff op k))

  other_accepted : (f : Json) → Keeps (OnDesk (Holds k r)) (on_accepted rt a f)
  unfolding on_accepted modify done
  other_accepted f =
      let op = rt.to_text (prop "operationId" f) in
      keep_found (λ s. Map.get op s.routes) _ keep_done
        (λ s q e h. ground (
          arith,
          Map.get-set op k (record q { accepted = true; accept_timer = none }) s.routes,
          eq_iff op k,
        ))

  other_frame : (t h : ℕ) (f : Json) → Keeps (OnDesk (Holds k r)) (on_frame rt t h a f)
  unfolding on_frame
  other_frame t h f =
      search
        (
          keep_rules,
          other_accepted,
          other_result,
          keep_hello rt (Holds k r),
          keep_event rt (Holds k r),
          keep_on_session_frame rt (Holds k r),
          keep_on_session_close rt (Holds k r),
          keep_sent rt (Holds k r),
        )
        depth 14

  other_message :
      (t h : ℕ) (m : String) → Keeps (OnDesk (Holds k r)) (on_channel_message rt t h a m)
  unfolding on_channel_message check_frame
  other_message t h m = search (keep_rules, other_frame, keep_violation rt (Holds k r)) depth 14

step-message :
    (rt : Runtime) (s : Coordinator) (t h : ℕ) (m : String) (a : Attachment)
    → attachment_of h s.sockets ≡ some a
    → step rt s (message t h (text m)) ≡ (on_message rt t h a m s).1
unfolding step web_socket_message with_state option
step-message rt s t h m a e =
    ap (λ o. (option o (close rt h 1008 "unidentified channel") (λ b. on_message rt t h b m) s).1) e

-- A message on a channel leaves every route of another fence in place, as it was: a retired channel
-- can neither accept nor answer a command that was sent to its successor.
pub message_keeps_other_fences :
    (rt : Runtime) (s : Coordinator) (t h : ℕ) (m : Inbound) (a : ChannelAttachment) (k : String)
    (r : InflightRoute)
    → attachment_of h s.sockets ≡ some (channel a)
    → Map.get k s.routes ≡ some r
    → str_eq r.fence a.fence ≡ false
    → Map.get k (step rt s (message t h m)).routes ≡ some r
unfolding step web_socket_message done on_message
message_keeps_other_fences rt s t h binary a k r e held other = held
message_keeps_other_fences rt s t h (text m) a k r e held other =
    rw (step-message rt s t h m (channel a) e) ((other_message rt a k r other t h m).run s held)

-- A viewer's message leaves the routes and every answer to a command as they are.
pub viewer_message_keeps_desk :
    (rt : Runtime) (s : Coordinator) (t h : ℕ) (m : Inbound) (a : ViewerAttachment)
    → attachment_of h s.sockets ≡ some (viewer a)
    → desk (step rt s (message t h m)) ≡ desk s
unfolding step web_socket_message done on_message
viewer_message_keeps_desk rt s t h binary a e = refl
viewer_message_keeps_desk rt s t h (text m) a e =
    rw (step-message rt s t h m (viewer a) e) ((kept t h a m).run s refl)
  where
    kept :
        (t h : ℕ) (a : ViewerAttachment) (m : String)
        → Keeps (OnDesk (λ d. d ≡ desk s)) (on_message rt t h (viewer a) m)
    kept t h a m =
        search
          (keep_rules, keep_viewer_message rt (λ d. d ≡ desk s), keep_closed rt (λ d. d ≡ desk s))
          depth 12
