-- ===== src/Jobs/Lifecycle.antt =====
-- Jobs as they move from state to state.
use vps_manager.Base.{
  ℕ, suc, ◌+◌, ◌%◌, ◌^◌, ◌≤◌, ◌<◌, ◌≡◌, ◌⊎◌, refl, true, Option, none, some, arith, Time, ok, err,
  inl, inr, if◌then◌else◌,
}
use vps_manager.Jobs.{
  Job, JobState, queued, running, awaiting_approval, succeeded, failed, timed_out, cancelled,
  transition_job, can_transition, is_final, is_running, invalid_transition,
}

-- What the times of a job in a state are, as seen at `now`: a queued job has none; one that runs or
-- waits was started; one that ended by itself was started and then finished; one that was cancelled
-- is finished, and was started before that or not at all.
abbrev pub Times : JobState → Option Time → Option Time → Time → Type 0
Times queued s f now = (s ≡ none) × (f ≡ none)
Times running s f now = (t : Time) × (s ≡ some t) × (t ≤ now) × (f ≡ none)
Times awaiting_approval s f now = (t : Time) × (s ≡ some t) × (t ≤ now) × (f ≡ none)
Times cancelled s f now =
    (u : Time) × (f ≡ some u) × (u ≤ now) × ((s ≡ none) ⊎ ((t : Time) × (s ≡ some t) × (t ≤ u)))
Times _ s f now = (t : Time) × (u : Time) × (s ≡ some t) × (f ≡ some u) × (t ≤ u) × (u ≤ now)

next-Times :
    (from to : JobState) (s f : Option Time) (before now : Time)
    → can_transition from to ≡ true
    → before ≤ now
    → Times from s f before
    → Times to (if is_running to then some now else s) (if is_final to then some now else f) now
unfolding can_transition
next-Times queued running s f before now h le t = (now, refl, omega arith, t.1)
next-Times queued cancelled s f before now h le t = (now, refl, omega arith, inl t.0)
next-Times awaiting_approval running s f before now h le t = (now, refl, omega arith, t.3)
next-Times awaiting_approval cancelled s f before now h le t =
    (now, refl, omega arith, inr (t.0, t.1, omega arith))
next-Times running awaiting_approval s f before now h le t = (t.0, t.1, omega arith, t.3)
next-Times running succeeded s f before now h le t = (t.0, now, t.1, refl, omega arith, omega arith)
next-Times running failed s f before now h le t = (t.0, now, t.1, refl, omega arith, omega arith)
next-Times running timed_out s f before now h le t = (t.0, now, t.1, refl, omega arith, omega arith)
next-Times running cancelled s f before now h le t =
    (now, refl, omega arith, inr (t.0, t.1, omega arith))
next-Times _ _ s f before now h le t = cc

module _ {ℓ} {Payload : Type ℓ} where
  -- The jobs to which moves lead, each made at the time of the one before or later.
  pub data Reach (start : Job Payload) : Time → ℕ → Job Payload → Type ℓ where
    here : (now : Time) → Reach start now 0 start
    next :
        {before : Time} {n : ℕ} {job next_job : Job Payload} (to : JobState) (now : Time)
        → Reach start before n job
        → before ≤ now
        → transition_job job to now ≡ ok next_job
        → Reach start now (suc n) next_job

  -- No transition leads out of a final state.
  pub final_absorbs :
      (job : Job Payload) (to : JobState) (now : Time)
      → is_final job.state ≡ true
      → transition_job job to now ≡ err (invalid_transition job.state to)
  unfolding transition_job
  final_absorbs job to now h = ground arith

  -- A transition that is made is in the table. It sets the state, the start when the job begins to run,
  -- the finish when it ends, and the version, which goes up by one modulo 2 ^ 64; the id stays.
  pub transition_fields :
      (now : Time) (job next_job : Job Payload) (to : JobState)
      → transition_job job to now ≡ ok next_job
      → (can_transition job.state to ≡ true)
        × (next_job.state ≡ to)
        × (next_job.started_at ≡ (if is_running to then some now else job.started_at))
        × (next_job.finished_at ≡ (if is_final to then some now else job.finished_at))
        × (next_job.version ≡ (job.version + 1) % 2 ^ 64)
        × (next_job.id ≡ job.id)
  unfolding transition_job
  transition_fields now job next_job to h = ground arith

  step-Times :
      (before now : Time) (job next_job : Job Payload) (to : JobState)
      → before ≤ now
      → transition_job job to now ≡ ok next_job
      → Times job.state job.started_at job.finished_at before
      → Times next_job.state next_job.started_at next_job.finished_at now
  step-Times before now job next_job to le h t =
      let f = transition_fields now job next_job to h in
      rw (f.1, f.2, f.3)
        (next-Times job.state to job.started_at job.finished_at before now f.0 le t)

  -- A job that starts queued, without times, has at every moment of every sequence of transitions
  -- made at non-decreasing times the times that its state promises: started before finished, and
  -- neither later than now.
  pub Reach-Times :
      (start job : Job Payload) (now : Time) (n : ℕ)
      → start.state ≡ queued
      → start.started_at ≡ none
      → start.finished_at ≡ none
      → Reach start now n job
      → Times job.state job.started_at job.finished_at now
  Reach-Times start job now n q s f (here _) = rw (q) (s, f)
  Reach-Times start job _ n q s f (next {before} {job = earlier} to now r le h) =
      step-Times before now earlier job to le h (Reach-Times start earlier before _ q s f r)

  -- After n transitions the version is n more than at the start, modulo 2 ^ 64, and the id is as it
  -- was. The start's version is one that 64 bits hold.
  pub Reach-version :
      (start job : Job Payload) (now : Time) (n : ℕ)
      → start.version < 2 ^ 64
      → Reach start now n job
      → (job.version ≡ (start.version + n) % 2 ^ 64) × (job.id ≡ start.id)
  Reach-version start job now n w (here _) = (omega arith, refl)
  Reach-version start job _ n w (next {before} {job = earlier} to now r le h) =
      let f = transition_fields now earlier job to h in
      let ih = Reach-version start earlier before _ w r in (omega (arith, f, ih), cc)
