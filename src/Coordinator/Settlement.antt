-- ===== src/Coordinator/Settlement.antt =====
-- Every dispatched command is answered exactly once, or waits as exactly one route.
use kazibee_home.Prelude.{
  ℕ, String, ◌+◌, ◌≤◌, ◌<◌, ◌==◌, ltb, str_eq, if◌then◌else◌, false, not, ◌≡◌, refl, Option, some,
  List, [], ◌∷◌, arith, eq_refl, ==_iff, Bool-cases, inl, inr,
}
use kazibee_home.Prelude.Map
use kazibee_home.Prelude.Map.{Map, IsUnique}
use kazibee_home.Json.{Json, prop}
use kazibee_home.Coordinator.State.{
  Coordinator, Runtime, Response, max_inflight_routes, InflightRoute, Attachment, channel, viewer,
  ChannelAttachment, Message,
}
use kazibee_home.Coordinator.Effects.{
  ◌>>◌, after, done, modify, with_state, attempt, rescue, return, throw, send, answer_route,
}
use kazibee_home.Coordinator.Keeps.{Keeps, keep_rules, keep_found, keep_done, keep_modify}
use kazibee_home.Coordinator.Desk.{
  OnDesk, desk, keep_sent, keep_closed, keep_session_close, keep_viewer_message,
  keep_on_session_frame, keep_on_session_close, keep_invoke_timeout, keep_invoke_read,
  keep_accept_channel, keep_accept_viewer, keep_hello, keep_event, keep_violation, keep_clear,
}
use kazibee_home.Coordinator.Tickets.{
  waiting, answers, IsSettled, settle-IsSettled, mark-IsSettled, enroll-IsSettled, lose-IsSettled,
}
use kazibee_home.Coordinator.Handler.{
  Inbound, text, binary, Request, on_frame, check_frame, on_channel_message, on_message,
  web_socket_message, on_close, web_socket_close, fetch,
}
use kazibee_home.Coordinator.Run.{
  Event, message, closed, request, accept_timer, result_timer, invoke_timer, ponged, dropped, fresh,
  step, run,
}
use kazibee_home.Coordinator.Routes.{
  operation_id_of, route_command, dispatch, accept_timeout, result_timeout, new_route,
  register_route, lose_routes, on_accepted, on_result, expire_route,
}

pub IsSettled-lose : (f : String) → Keeps (OnDesk IsSettled) (lose_routes f)
unfolding lose_routes
IsSettled-lose f = keep_modify _ (λ s h. lose-IsSettled (desk s) f h)

pub IsSettled-expire :
    (k : String) (t : ℕ) (x : Response) → Keeps (OnDesk IsSettled) (expire_route k t x)
unfolding expire_route ◌>>◌ after modify done
IsSettled-expire k t x = keep_found (λ s. Map.get k s.routes) _ keep_done answer
  where
    answer :
        (s : Coordinator) (r : InflightRoute)
        → Map.get k s.routes ≡ some r
        → IsSettled (desk s)
        → IsSettled (
            desk
              ((if not (r.ticket == t) then done else (do
                modify (λ s'. record s' { routes = Map.delete k s'.routes })
                answer_route t x))
                s).1)
    answer s r e h = elim (Bool-cases (r.ticket == t)) [
      | inl same ↦
          rw same (rw ((==_iff r.ticket t).0 same) at (settle-IsSettled (desk s) k r x h e))
      | inr other ↦ rw other h
    ]

module _ (rt : Runtime) where
  pub IsSettled-result :
      (a : ChannelAttachment) (f : Json) → Keeps (OnDesk IsSettled) (on_result rt a f)
  unfolding on_result ◌>>◌ after modify done
  IsSettled-result a f =
      keep_found (λ s. Map.get (rt.to_text (prop "operationId" f)) s.routes) _ keep_done
        (λ s r e h. elim (Bool-cases (str_eq r.fence a.fence)) [
          | inl same ↦ rw same (settle-IsSettled (desk s) _ r _ h e)
          | inr other ↦ rw other h
        ])

  pub IsSettled-accepted :
      (a : ChannelAttachment) (f : Json) → Keeps (OnDesk IsSettled) (on_accepted rt a f)
  unfolding on_accepted modify done
  IsSettled-accepted a f =
      keep_found (λ s. Map.get (rt.to_text (prop "operationId" f)) s.routes) _ keep_done
        (λ s r e h. elim (Bool-cases (str_eq r.fence a.fence)) [
          | inl same ↦ rw same (mark-IsSettled (desk s) _ r _ h e refl)
          | inr other ↦ rw other h
        ])

  IsSettled-register :
      (s : Coordinator) (t h : ℕ) (k f : String) (c : Json)
      → Map.has k s.routes ≡ false
      → Map.size s.routes < max_inflight_routes
      → IsSettled (desk s)
      → IsSettled (desk (register_route rt t h k f c s).1)
  unfolding register_route with_state ◌>>◌ after modify attempt rescue return send
  IsSettled-register s t h k f c new room p =
      let r = new_route rt t k f c s in
      let q = enroll-IsSettled (desk s) k r p new refl room in
      elim (Bool-cases (rt.send_throws s.sockets h (Message.command c))) [
        | inl e ↦
            rw e (settle-IsSettled _ k r _ q (rw (Map.get-set k k r s.routes, eq_refl k) refl))
        | inr e ↦ rw e q
      ]

  IsSettled-route :
      (t h : ℕ) (f : String) (c : Json) → Keeps (OnDesk IsSettled) (route_command rt t h f c)
  unfolding route_command with_state return throw
  IsSettled-route t h f c = record {
    run = λ s p. ground (arith, IsSettled-register s t h (operation_id_of rt c) f c);
  }

  IsSettled-dispatch : (t : ℕ) (body : Option Json) → Keeps (OnDesk IsSettled) (dispatch rt t body)
  unfolding dispatch
  IsSettled-dispatch t body = search (keep_rules, IsSettled-route) depth 14

  IsSettled-frame :
      (t h : ℕ) (a : ChannelAttachment) (f : Json) → Keeps (OnDesk IsSettled) (on_frame rt t h a f)
  unfolding on_frame
  IsSettled-frame t h a f =
      search
        (
          keep_rules,
          IsSettled-accepted,
          IsSettled-result,
          keep_hello rt IsSettled,
          keep_event rt IsSettled,
          keep_on_session_frame rt IsSettled,
          keep_on_session_close rt IsSettled,
          keep_sent rt IsSettled,
        )
        depth 14

  IsSettled-channel :
      (t h : ℕ) (a : ChannelAttachment) (m : String)
      → Keeps (OnDesk IsSettled) (on_channel_message rt t h a m)
  unfolding on_channel_message check_frame
  IsSettled-channel t h a m =
      search (keep_rules, IsSettled-frame, keep_violation rt IsSettled) depth 14

  IsSettled-message :
      (t h : ℕ) (a : Attachment) (m : String) → Keeps (OnDesk IsSettled) (on_message rt t h a m)
  unfolding on_message
  IsSettled-message t h (viewer a) m =
      search (keep_rules, keep_viewer_message rt IsSettled, keep_closed rt IsSettled) depth 12
  IsSettled-message t h (channel a) m = IsSettled-channel t h a m

  IsSettled-socket :
      (t h : ℕ) (m : Inbound) → Keeps (OnDesk IsSettled) (web_socket_message rt t h m)
  unfolding web_socket_message
  IsSettled-socket t h binary = keep_done
  IsSettled-socket t h (text m) =
      search (keep_rules, IsSettled-message, keep_closed rt IsSettled) depth 12

  IsSettled-on_close : (a : Attachment) → Keeps (OnDesk IsSettled) (on_close rt a)
  unfolding on_close
  IsSettled-on_close (viewer a) = search (keep_rules, keep_session_close rt IsSettled) depth 12
  IsSettled-on_close (channel a) =
      search (keep_rules, keep_clear rt IsSettled, IsSettled-lose) depth 12

  IsSettled-close : (h : ℕ) → Keeps (OnDesk IsSettled) (web_socket_close rt h)
  unfolding web_socket_close
  IsSettled-close h = search (keep_rules, IsSettled-on_close) depth 12

  IsSettled-fetch : (t : ℕ) (q : Request) → Keeps (OnDesk IsSettled) (fetch rt t q)
  unfolding fetch
  IsSettled-fetch t q =
      search
        (
          keep_rules,
          IsSettled-dispatch,
          keep_accept_viewer rt IsSettled,
          keep_accept_channel rt IsSettled,
          keep_invoke_read rt IsSettled,
        )
        depth 14

  step-IsSettled :
      (s : Coordinator) (e : Event) → IsSettled (desk s) → IsSettled (desk (step rt s e))
  unfolding step accept_timeout result_timeout
  step-IsSettled s (message now h m) p = (IsSettled-socket now h m).run s p
  step-IsSettled s (closed h) p = (IsSettled-close h).run s p
  step-IsSettled s (request now q) p = (IsSettled-fetch now q).run s p
  step-IsSettled s (accept_timer k t) p = (IsSettled-expire k t _).run s p
  step-IsSettled s (result_timer k t) p = (IsSettled-expire k t _).run s p
  step-IsSettled s (invoke_timer k i) p = (keep_invoke_timeout rt IsSettled k i).run s p
  step-IsSettled s (ponged h t) p = p
  step-IsSettled s (dropped h) p = p

  run-IsSettled :
      (s : Coordinator) (es : List Event) → IsSettled (desk s) → IsSettled (desk (run rt s es))
  unfolding run
  run-IsSettled s [] p = p
  run-IsSettled s (e ∷ es) p = run-IsSettled (step rt s e) es (step-IsSettled s e p)

fresh-IsSettled : IsSettled (desk fresh)
unfolding fresh waiting answers
fresh-IsSettled = record { unique = tt; exact = λ t. ground arith; bounded = omega arith }

-- Whatever happens to a coordinator from its first call on, a ticket that `dispatch` gave out is
-- held by one route and has no answer, or is held by none and has exactly one answer; a ticket that
-- was not given out yet has neither.
pub dispatched_exactly_once :
    (rt : Runtime) (es : List Event) (t : ℕ)
    → let s = run rt fresh es in
      waiting t s.routes + answers t s.route_replies ≡ (if ltb t s.route_tickets then 1 else 0)
dispatched_exactly_once rt es = (run-IsSettled rt fresh es fresh-IsSettled).exact

-- Whatever happens to a coordinator, it never holds more than 32 commands in flight, and no two of
-- them under one operation id.
pub routes_bounded :
    (rt : Runtime) (es : List Event)
    → let s = run rt fresh es in (Map.size s.routes ≤ max_inflight_routes) × IsUnique s.routes
routes_bounded rt es = let h = run-IsSettled rt fresh es fresh-IsSettled in (h.bounded, h.unique)
