-- ===== src/Ledger.antt =====
-- services/connector/service/runbook_ledger.go: which runbook jobs have been claimed, and the
-- responses of those that are complete. The lock makes each method one step. A Go map is read in any
-- order; where two completed entries started at the same time, the model evicts the first in its own.
pub mod Bounds
pub mod Claims
mod Tests
use vps_manager.Base.{
  ℕ, ◌≡◌, refl, Bool, true, false, not, ◌&&◌, ◌||◌, Option, none, some, List, [], ◌∷◌, ℤ, pos,
  leb_ℤ, pos_part, Time, Text, Table, lookup, insert, delete, length, ltb, leb, ◌==◌, text_eq,
  if◌then◌else◌,
}

pub data LedgerState : Type 0 where
  in_progress completed : LedgerState

abbrev pub is_completed : LedgerState → Bool
is_completed in_progress = false
is_completed completed = true

pub data RunbookClaim : Type 0 where
  claim_new claim_replay claim_conflict claim_in_progress claim_full : RunbookClaim

-- The response type is the protocol's; the ledger only stores and copies it. `zero` is its zero value.
module _ {ℓ} (Response : Type ℓ) where
  pub record LedgerEntry : Type ℓ where
    pub scope : Text
    pub state : LedgerState
    pub started_at : Time
    pub response : Response

  pub record Ledger : Type ℓ where
    pub entries : Table LedgerEntry
    pub max : ℕ

module _ {ℓ} {Response : Type ℓ} where
  unfoldable pub new_ledger : ℤ → Ledger Response
  new_ledger max_entries = record {
    entries = [];
    max = if leb_ℤ max_entries (pos 0) then 10000 else pos_part max_entries;
  }

  -- One round of the search for the oldest completed entry: `oldest_job` is empty while there is none.
  abbrev pub older : Text × Time → Text → LedgerEntry Response → Text × Time
  older (oldest_job, oldest) job entry =
      if is_completed entry.state && (length oldest_job == 0 || ltb entry.started_at oldest)
      then (job, entry.started_at)
      else (oldest_job, oldest)

  unfoldable pub find_oldest : Text × Time → Table (LedgerEntry Response) → Text × Time
  find_oldest best [] = best
  find_oldest best ((job, entry) ∷ rest) = find_oldest (older best job entry) rest

  abbrev pub started : Response → Text → Time → LedgerEntry Response
  started zero scope now = record {
    scope = scope;
    state = in_progress;
    started_at = now;
    response = zero;
  }

  -- The job has no entry: make room if the ledger is full, and enter it.
  pub enter :
      Response → Ledger Response → Text → Text → Time → Ledger Response × (RunbookClaim × Response)
  unfolding find_oldest
  enter zero l job scope now =
      if leb l.max (length l.entries)
      then if length (find_oldest ([], 0) l.entries).0 == 0 then (l, (claim_full, zero)) else (
        record l {
          entries =
              insert job (started zero scope now)
                (delete (find_oldest ([], 0) l.entries).0 l.entries);
        },
        (claim_new, zero),
      )
      else (record l { entries = insert job (started zero scope now) l.entries }, (claim_new, zero))

  -- What an entry of the job answers.
  abbrev pub answer : Response → LedgerEntry Response → Text → RunbookClaim × Response
  answer zero entry scope =
      if not (text_eq entry.scope scope) then (claim_conflict, zero) else elim entry.state [
        | in_progress ↦ (claim_in_progress, zero)
        | completed ↦ (claim_replay, entry.response)
      ]

  unfoldable pub claim :
      Response → Ledger Response → Text → Text → Time → Ledger Response × (RunbookClaim × Response)
  unfolding enter
  claim zero l job scope now = elim (lookup job l.entries) [
    | some entry ↦ (l, answer zero entry scope)
    | none ↦ enter zero l job scope now
  ]

  abbrev pub is_open : LedgerEntry Response → Text → Bool
  is_open entry scope = text_eq entry.scope scope && not (is_completed entry.state)

  unfoldable pub complete : Ledger Response → Text → Text → Response → Ledger Response
  complete l job scope response = elim (lookup job l.entries) [
    | none ↦ l
    | some entry ↦
        if is_open entry scope
        then record l {
          entries = insert job (record entry { state = completed; response = response }) l.entries;
        }
        else l
  ]
