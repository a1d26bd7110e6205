-- ===== src/Jobs.antt =====
-- services/control-plane/internal/model/model.go: the states of a job. What a job carries besides
-- (its snapshot, command, results and error) no transition touches: it is one field of any type.
pub mod Lifecycle
mod Tests
use vps_manager.Base.{
  ℕ, ◌+◌, ◌%◌, ◌^◌, Bool, true, false, Option, none, some, Time, Text, if◌then◌else◌, Result, ok,
  err,
}

pub data JobState : Type 0 where
  queued running awaiting_approval succeeded failed timed_out cancelled : JobState

pub record Job {ℓ} (Payload : Type ℓ) : Type ℓ where
  pub id : Text
  pub kind : Text
  pub host_id : Text
  pub state : JobState
  pub requested_by : Text
  pub requested_session_id : Text
  pub created_at : Time
  pub started_at : Option Time
  pub finished_at : Option Time
  pub payload : Payload
  pub version : ℕ

pub data Error : Type 0 where
  invalid_transition : JobState → JobState → Error

unfoldable pub can_transition : JobState → JobState → Bool
can_transition queued running = true
can_transition queued cancelled = true
can_transition awaiting_approval running = true
can_transition awaiting_approval cancelled = true
can_transition running awaiting_approval = true
can_transition running succeeded = true
can_transition running failed = true
can_transition running timed_out = true
can_transition running cancelled = true
can_transition _ _ = false

abbrev pub is_running : JobState → Bool
is_running running = true
is_running _ = false

-- The states that a job ends in.
abbrev pub is_final : JobState → Bool
is_final succeeded = true
is_final failed = true
is_final timed_out = true
is_final cancelled = true
is_final _ = false

unfoldable pub transition_job {ℓ} :
    {Payload : Type ℓ} → Job Payload → JobState → Time → Result Error (Job Payload)
unfolding can_transition
transition_job job to now =
    if can_transition job.state to
    then ok (record job {
      state = to;
      version = (job.version + 1) % 2 ^ 64;
      started_at = if is_running to then some now else job.started_at;
      finished_at = if is_final to then some now else job.finished_at;
    })
    else err (invalid_transition job.state to)
