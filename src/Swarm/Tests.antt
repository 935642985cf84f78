-- ===== src/Swarm/Tests.antt =====
-- A machine's object at work, and what its properties say of it.
use kazibee_home.Prelude.{
  ℕ, ◌+◌, ◌-◌, str_eq, if◌then◌else◌, true, false, none, some, List, [], ◌∷◌, length, min, ◌≡◌,
  refl, arith,
}
use kazibee_home.Json.{null}
use kazibee_home.Swarm.State.{HeadFrame, StoredFrame, Machine, HeadRuntime, whole}
use kazibee_home.Swarm.Machine.{SwarmRequest, page_of, next_cursor}
use kazibee_home.Swarm.Replay.{
  IsCounted, IsRecent, SwarmEvent, head_message, head_closed, head_request, swarm_run, new_machine,
  buffer_holds_the_last_frames,
}
use kazibee_home.Swarm.Paging.{page_goes_on_from_the_cursor}

abbrev beat : HeadFrame
beat = record {
  kind = "head.heartbeat";
  swarm_id = "swm_1";
  correlation_id = "cor_1";
  head_version = "1";
  head_class = "small";
  state = "ready";
  whole = null;
}

abbrev runtime : HeadRuntime
runtime = record {
  is_swarm_id = λ s. true;
  is_machine_id = λ s. true;
  parse_outbound =
      λ t i. if str_eq t "hello" then some (record beat { kind = "head.hello" }) else some beat;
  accepts_inbound = λ f i. true;
  safe_integer = λ t. some (whole 1);
  is_date = λ t. true;
  send_throws = λ h. false;
  close_throws = λ h. false;
}

abbrev opening : SwarmRequest
opening = record {
  upgrade = true;
  method = "GET";
  pathname = "/";
  swarm_id = "swm_1";
  machine_id = "mch_1";
  uuid = "1";
  after = none;
  limit = none;
  body = none;
}

abbrev beating : List SwarmEvent
beating =
    head_request 1 opening
    ∷ head_message 2 0 "hello"
    ∷ head_message 3 0 "beat"
    ∷ head_message 4 0 "beat"
    ∷ head_closed 5 0
    ∷ []

buffer_holds_the_last_frames_example : IsRecent (swarm_run runtime new_machine beating)
buffer_holds_the_last_frames_example = buffer_holds_the_last_frames runtime beating

abbrev frame_at : ℕ → StoredFrame
frame_at n = record { cursor = n; received_at = 9; frame = beat }

abbrev three_frames : Machine
three_frames = record {
  sockets = [];
  next_handle = 0;
  presence = none;
  cursor = 3;
  events = frame_at 1 ∷ frame_at 2 ∷ frame_at 3 ∷ [];
}

three_frames-IsRecent : IsRecent three_frames
unfolding IsCounted
three_frames-IsRecent = record {
  few = omega arith;
  all_or_full = omega arith;
  counted = (refl, (refl, (refl, tt)));
}

page_goes_on_from_the_cursor_example :
    IsCounted (1 + 1) (page_of 1 100 three_frames.events)
    × (length (page_of 1 100 three_frames.events) ≡ min 100 (3 - 1))
    × (next_cursor 1 (page_of 1 100 three_frames.events)
        ≡ 1 + length (page_of 1 100 three_frames.events))
page_goes_on_from_the_cursor_example =
    page_goes_on_from_the_cursor 1 100 three_frames three_frames-IsRecent (omega arith)
