-- ===== src/Relay/Source.antt =====
-- What a command of src/server/services/connect_client_relay_service.ts is checked against: its nested
-- target (`nestedTargetFence`) and the owner of its source (`sourceOwner`).
use kazibee_home.Prelude.{
  ℕ, String, ◌==◌, str_eq, if◌then◌else◌, Bool, true, false, not, ◌&&◌, ◌||◌, Option, none, some,
}
use kazibee_home.Json.{Json, undefined, null, bool, num, real, str, is_object, is_str, prop}
use kazibee_home.Executor.Rows.{ExecutorRow, ExecutorState, is_active, RepoResult, failed, ok}
use kazibee_home.Relay.State.{
  ClientRelayActor, desktop_relay, executor_relay, Outcome, website_deployment_mismatch,
  invalid_envelope,
}

-- `payload` is the record that the schema asks for; `encoded` is the whole frame.
pub record CommandFrame : Type 0 where
  pub command_id : String
  pub correlation_id : String
  pub idempotency_key : String
  pub website_deployment_id : String
  pub executor_id : String
  pub device_id : String
  pub actor_role : String
  pub operation : String
  pub payload : Json
  pub encoded : Json

-- A row of a desktop device, as far as the relay reads it.
pub record DesktopRow : Type 0 where
  pub owner_user_id : Option String
  pub state : ExecutorState
  pub credential_generation : ℕ

-- `a === b` of values of one parsed body: two objects are never the same one.
unfoldable pub is_same : Json → Json → Bool
is_same undefined undefined = true
is_same null null = true
is_same (bool true) (bool b) = b
is_same (bool false) (bool b) = not b
is_same (num n) (num m) = n == m
is_same (real s) (real t) = str_eq s t
is_same (str s) (str t) = str_eq s t
is_same a b = false

unfoldable pub is_threaded : String → Bool
is_threaded operation =
    str_eq operation "thread.send"
    || str_eq operation "thread.retry"
    || str_eq operation "thread.cancel"

abbrev pub is_undefined : Json → Bool
is_undefined undefined = true
is_undefined v = false

unfoldable pub receipt_fence : CommandFrame → Json → Option Outcome
unfolding is_same
receipt_fence frame receipt =
    if not (is_object receipt)
    then some invalid_envelope
    else if not (is_str frame.website_deployment_id (prop "websiteDeploymentId" receipt))
    then some website_deployment_mismatch
    else if not (is_str frame.executor_id (prop "executorId" receipt))
        || not (is_same (prop "conversationId" receipt) (prop "conversationId" frame.payload))
    then some invalid_envelope
    else none

unfoldable pub nested_target_fence : CommandFrame → Option Outcome
unfolding is_threaded receipt_fence
nested_target_fence frame =
    if not (is_object frame.payload)
    then some invalid_envelope
    else if str_eq frame.operation "conversation.create"
    then if not (is_str frame.website_deployment_id (prop "websiteDeploymentId" frame.payload))
      then some website_deployment_mismatch
      else if is_str frame.executor_id (prop "executorId" frame.payload)
      then none
      else some invalid_envelope
    else if not (is_threaded frame.operation)
    then none
    else if str_eq frame.operation "thread.send"
        && is_undefined (prop "expectedExecutionBinding" frame.payload)
        && is_str "start" (prop "phase" frame.payload)
    then none
    else receipt_fence frame (prop "expectedExecutionBinding" frame.payload)

-- The tests of `sourceOwner` on an executor's row, and on a desktop's.
unfoldable pub executor_owner : ClientRelayActor → Option ExecutorRow → Option String
executor_owner actor none = none
executor_owner actor (some source) =
    if is_active source.state
      && str_eq source.device_id actor.device_id
      && source.credential_generation == actor.generation
    then present source.owner_user_id
    else none
  where
    -- `&& source.owner_user_id`: an empty text counts as none
    present : Option String → Option String
    present none = none
    present (some owner) = if str_eq owner "" then none else some owner

unfoldable pub desktop_owner : ClientRelayActor → Option DesktopRow → Option String
desktop_owner actor none = none
desktop_owner actor (some desktop) =
    if is_active desktop.state && desktop.credential_generation == actor.generation
    then present desktop.owner_user_id
    else none
  where
    present : Option String → Option String
    present none = none
    present (some owner) = if str_eq owner "" then none else some owner

abbrev pub map_result : {A B : Type 0} → (A → B) → RepoResult A → RepoResult B
map_result f failed = failed
map_result f (ok a) = ok (f a)

-- `sourceOwner`: the store of the actor's audience is read.
unfoldable pub source_owner :
    ClientRelayActor
    → (executors : String → RepoResult (Option ExecutorRow))
    → (desktops : String → RepoResult (Option DesktopRow)) → RepoResult (Option String)
unfolding executor_owner desktop_owner
source_owner actor executors desktops = elim actor.audience [
  | executor_relay executor_id ↦ map_result (executor_owner actor) (executors executor_id)
  | desktop_relay ↦ map_result (desktop_owner actor) (desktops actor.device_id)
]
