-- ===== src/Relay/Admission.antt =====
-- Whose link a device may have, and how many commands it may send in a minute.
use kazibee_home.Prelude.{
  ℕ, suc, String, ◌+◌, ◌-◌, ◌≤◌, ◌<◌, ◌==◌, leb, str_eq, Bool, true, false, if◌then◌else◌, none,
  some, List, [], ◌∷◌, ◌≡◌, ◌∙◌, refl, ap, arith, Bool-cases, inl, inr, length, All, any,
}
use kazibee_home.Prelude.Map
use kazibee_home.Prelude.Map.{Map}
use kazibee_home.Sse.{writable_ended, end_stream, end_stream-ended}
use kazibee_home.Relay.State.{
  Relay, DesktopConnection, CloseCallback, ClientRelayActor, Rate, write_to,
}
use kazibee_home.Relay.Links.{
  client_events, open_link, refuse, end_sink, run_callbacks, on_close, close, is_refused,
}
use kazibee_home.Relay.Routing.{take_rate}

-- The second relay is the first but for its sinks and callbacks.
abbrev pub IsQuiet : Relay → Relay → Type 0
IsQuiet r s = s ≡ record r { sinks = s.sinks; callbacks = s.callbacks }

abbrev pub is_of : ℕ → CloseCallback → Bool
is_of handle b = b.handle == handle

no_callback :
    (h : ℕ) (bs : List CloseCallback) (r : Relay)
    → any (is_of h) bs ≡ false
    → run_callbacks h bs r ≡ r
unfolding run_callbacks
no_callback h [] r e = refl
no_callback h (b ∷ bs) r e = elim (Bool-cases (b.handle == h)) [
  | inl d ↦ absurd (true_false (rw d at e))
  | inr d ↦ rw d (no_callback h bs r (rw d at e))
]
  where
    true_false : true ≡ false → ⊥
    true_false e = cc

end_sink-IsQuiet :
    (h : ℕ) (r : Relay)
    → any (is_of h) r.callbacks ≡ false
    → IsQuiet r (end_sink h r) × (writable_ended h (end_sink h r).sinks ≡ true)
unfolding end_sink
end_sink-IsQuiet h r e = elim (Bool-cases (writable_ended h r.sinks)) [
  | inl d ↦ rw d (refl, d)
  | inr d ↦
      rw (d, no_callback h r.callbacks (record r { sinks = end_stream h r.sinks }) e)
        (refl, end_stream-ended h r.sinks)
]

refuse-IsQuiet :
    (a : ClientRelayActor) (h : ℕ) (r : Relay)
    → any (is_of h) r.callbacks ≡ false
    → IsQuiet r (refuse a h r) × (writable_ended h (refuse a h r).sinks ≡ true)
unfolding refuse write_to
refuse-IsQuiet a h r e = elim (Bool-cases (writable_ended h r.sinks)) [
  | inl d ↦ rw d (end_sink-IsQuiet h r e)
  | inr d ↦ rw d (let told = end_sink-IsQuiet h (record r { sinks = _ }) e in (told.0, told.1))
]

close-other :
    (k fence : String) (d : DesktopConnection) (r : Relay)
    → Map.get k r.desktops ≡ some d
    → str_eq d.fence fence ≡ false
    → close k fence r ≡ r
unfolding close
close-other k fence d r e f = rw (e, close, f) refl

-- A client whose device has a link under another credential authority gets no link: its own sink is
-- ended, and the link, the routes, the promises, the rates and the answers stay as they are. The
-- newcomer's fence is not that of the link, and its sink has no callbacks yet.
pub refused_client_changes_nothing :
    (a : ClientRelayActor) (fence : String) (h : ℕ) (d : DesktopConnection) (r : Relay)
    → is_refused a r ≡ true
    → Map.get a.device_id r.desktops ≡ some d
    → str_eq d.fence fence ≡ false
    → any (is_of h) r.callbacks ≡ false
    → IsQuiet r (client_events a fence h r)
      × (writable_ended h (client_events a fence h r).sinks ≡ true)
unfolding client_events open_link on_close
refused_client_changes_nothing a fence h d r refused held other unused =
    let (quiet, ended) = refuse-IsQuiet a h r unused in
    let still : Map.get a.device_id (refuse a h r).desktops ≡ some d =
      ap (λ (s : Relay). Map.get a.device_id s.desktops) quiet ∙ held in
    rw (refused, ended, close-other a.device_id fence d (refuse a h r) still other) (quiet, ended)

-- How many of the commands that come at these times the rate of a device lets through.
unfoldable pub let_through : String → List ℕ → Relay → ℕ
let_through device_id [] r = 0
let_through device_id (now ∷ times) r =
    let (passed, s) = take_rate now device_id r in
    (if passed then 1 else 0) + let_through device_id times s

abbrev pub at_most : ℕ → ℕ → ℕ
at_most n most = if leb n most then n else most

abbrev pub WithinWindow : ℕ → List ℕ → Type 0
WithinWindow start times = All (λ now. now - start < 60000) times

in_window :
    (device_id : String) (times : List ℕ) (r : Relay) (w : Rate)
    → Map.get device_id r.rates ≡ some w
    → w.count ≤ 120
    → WithinWindow w.window_started_ms times
    → let_through device_id times r ≡ at_most (length times) (120 - w.count)
unfolding let_through take_rate
in_window d [] r w e most h = ground arith
in_window d (now ∷ times) r w e most h =
    let fresh_window : leb 60000 (now - w.window_started_ms) ≡ false = ground (arith, h.0) in
    elim (Bool-cases (leb 120 w.count)) [
      | inl full ↦
          rw (e, take_rate, fresh_window, full)
            (ground (arith, in_window d times r w e most h.1, full))
      | inr free ↦
          let w' : Rate = record w { count = w.count + 1 } in
          let s : Relay = record r { rates = Map.set d w' r.rates } in
          rw (e, take_rate, fresh_window, free)
            (ground (
              arith,
              free,
              in_window d times s w' (Map.get-set_same d w' r.rates) (ground (arith, free)) h.1,
            ))
    ]

-- Of the commands that a device without a rate sends within a minute of the first, the first 120 pass
-- and no more.
pub window_lets_120_through :
    (device_id : String) (first : ℕ) (times : List ℕ) (r : Relay)
    → Map.get device_id r.rates ≡ none
    → WithinWindow first times
    → let_through device_id (first ∷ times) r ≡ at_most (suc (length times)) 120
unfolding let_through take_rate
window_lets_120_through d first times r e h =
    let w : Rate = record { window_started_ms = first; count = 1 } in
    let s : Relay = record r { rates = Map.set d w r.rates } in
    rw (e, take_rate)
      (ground (arith, in_window d times s w (Map.get-set_same d w r.rates) (omega arith) h))
