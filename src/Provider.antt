-- ===== src/Provider.antt =====
-- services/cloudflareprovider/idempotency.go: which operations of the provider's client are in flight
-- or done, so that a repeated one is not executed again. The operation that is executed, outside the
-- lock, is an argument: `begin` is what comes before it, `finish` what comes after. A Go map is read in
-- any order; of completed entries of the same age the model evicts the first in its own.
pub mod Executions
pub mod Histories
pub mod Bounds
pub mod Answers
mod Tests
use vps_manager.Base.{
  ℕ, Bool, true, false, not, ◌&&◌, ◌||◌, Option, none, some, [], ◌∷◌, ◌++◌, Time, Text, Table,
  lookup, insert, delete, length, ltb, leb, text_eq, if◌then◌else◌, Result, ok, err,
}

-- `done` is the result once the channel is closed.
pub record IdempotencyEntry (E V : Type 0) : Type 0 where
  pub fingerprint : Text
  pub done : Option (Result E V)
  pub created_at : Time

pub record Client (E V : Type 0) : Type 0 where
  pub idem : Table (IdempotencyEntry E V)
  pub max_idem_entries : ℕ

-- What a call finds: an entry of another request, one to wait for, no room, or that it executes.
pub data Begun (E V : Type 0) : Type 0 where
  conflicts : Begun E V
  waits : IdempotencyEntry E V → Begun E V
  full : Begun E V
  executes : Begun E V

-- How the wait for an entry that is in flight is given up.
pub data WaitError (E : Type 0) : Type 0 where
  cancelled timeout : WaitError E
  execute_failed : E → WaitError E

abbrev pub cache_key : Text → Text → Text → Text
cache_key operation scope key = operation ++ 0 ∷ scope ++ 0 ∷ key

module _ {E V : Type 0} where
  abbrev pub is_done : IdempotencyEntry E V → Bool
  is_done entry = elim entry.done [ none ↦ false | some result ↦ true ]

  -- One round of the search for the oldest entry that is done.
  abbrev pub older :
      Option (Text × IdempotencyEntry E V)
      → Text
      → IdempotencyEntry E V
      → Option (Text × IdempotencyEntry E V)
  older none key entry = if is_done entry then some (key, entry) else none
  older (some (oldest_key, oldest)) key entry =
      if is_done entry && ltb entry.created_at oldest.created_at
      then some (key, entry)
      else some (oldest_key, oldest)

  unfoldable pub find_oldest :
      Option (Text × IdempotencyEntry E V)
      → Table (IdempotencyEntry E V)
      → Option (Text × IdempotencyEntry E V)
  find_oldest best [] = best
  find_oldest best ((key, entry) ∷ rest) = find_oldest (older best key entry) rest

  -- evictOldestCompletedLocked; `none` where nothing is done.
  unfoldable pub evict_oldest_completed : Client E V → Option (Client E V)
  unfolding find_oldest
  evict_oldest_completed c = elim (find_oldest none c.idem) [
    | none ↦ none
    | some found ↦ some (record c { idem = delete found.0 c.idem })
  ]

  abbrev pub new_entry : Text → Time → IdempotencyEntry E V
  new_entry fingerprint now = record { fingerprint = fingerprint; done = none; created_at = now }

  abbrev pub enter : Client E V → Text → Text → Time → Client E V
  enter c key fingerprint now = record c { idem = insert key (new_entry fingerprint now) c.idem }

  unfoldable pub make_room : Client E V → Option (Client E V)
  unfolding evict_oldest_completed
  make_room c =
      let evicted = evict_oldest_completed c in
      if leb c.max_idem_entries (length c.idem) then evicted else some c

  -- runIdempotent up to the execution.
  unfoldable pub begin : Client E V → Text → Text → Time → Client E V × Begun E V
  unfolding make_room
  begin c key fingerprint now = elim (lookup key c.idem) [
    | some existing ↦
        (c, if not (text_eq existing.fingerprint fingerprint) then conflicts else waits existing)
    | none ↦ elim (make_room c) [
      | none ↦ (c, full)
      | some roomy ↦ (enter roomy key fingerprint now, executes)
    ]
  ]

  -- runIdempotent from the execution's result on, by the call that executed.
  unfoldable pub finish : Client E V → Text → Result E V → Client E V
  finish c key result = elim (lookup key c.idem) [
    | none ↦ c
    | some entry ↦ elim result [
      | ok value ↦ record c { idem = insert key (record entry { done = some (ok value) }) c.idem }
      | err e ↦ record c { idem = delete key c.idem }
    ]
  ]

  -- The select of a call that waits, once the entry is done or its context has ended. Where both are so,
  -- Go takes either; the model takes the result.
  abbrev pub wait_for : Option (Result E V) → Bool → Result (WaitError E) V
  wait_for (some (ok value)) was_cancelled = ok value
  wait_for (some (err e)) was_cancelled = err (execute_failed e)
  wait_for none was_cancelled = if was_cancelled then err cancelled else err timeout
