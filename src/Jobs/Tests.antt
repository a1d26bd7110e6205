-- ===== src/Jobs/Tests.antt =====
-- A job's life, and the theorems at it.
use vps_manager.Base.{ℕ, ◌≤◌, ◌≡◌, refl, none, some, arith, Time, codes, ok}
use vps_manager.Jobs.{Job, queued, running, succeeded, transition_job}
use vps_manager.Jobs.Lifecycle.{Reach, here, next, Reach-Times}

abbrev submitted : Job ℕ
submitted = record {
  id = codes "job_1";
  kind = codes "snapshot";
  host_id = codes "host_1";
  state = queued;
  requested_by = codes "alice";
  requested_session_id = codes "session_1";
  created_at = 5;
  started_at = none;
  finished_at = none;
  payload = 0;
  version = 1;
}

abbrev started : Job ℕ
started = record submitted { state = running; version = 2; started_at = some 7 }

abbrev done : Job ℕ
done = record started { state = succeeded; version = 3; finished_at = some 9 }

to_running : transition_job submitted running 7 ≡ ok started
unfolding transition_job
to_running = refl

to_succeeded : transition_job started succeeded 9 ≡ ok done
unfolding transition_job
to_succeeded = refl

life : Reach submitted 9 2 done
life =
    next succeeded 9 (next running 7 (here 5) (omega arith) to_running) (omega arith) to_succeeded

Reach-Times_example :
    (t : Time) × (u : Time) × (some 7 ≡ some t) × (some 9 ≡ some u) × (t ≤ u) × (u ≤ 9)
Reach-Times_example = Reach-Times submitted done 9 2 refl refl refl life
