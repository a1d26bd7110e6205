-- ===== src/Ledger/Tests.antt =====
-- Runs of the ledger, and its theorems at concrete inputs.
use vps_manager.Base.{
  ℕ, ◌≡◌, refl, inr, none, List, [], ◌∷◌, arith, Text, IsMap, lookup, codes, text_eq, if◌then◌else◌,
  ◌≢◌,
}
use vps_manager.Ledger.{Ledger, completed, claim, claim_new, claim_in_progress, claim_conflict}
use vps_manager.Ledger.Claims.{Call, claims, completes, run, claim_exclusive, AllLeaveOpen}

abbrev empty : Ledger ℕ
empty = record { entries = []; max = 1 }

abbrev other_calls : List (Call ℕ)
other_calls = claims (codes "b") (codes "s") 4 ∷ completes (codes "a") (codes "t") 9 ∷ []

abbrev two_jobs : Ledger ℕ
two_jobs = record {
  entries =
      (codes "a", record { scope = codes "s"; state = completed; started_at = 5; response = 1 })
      ∷ (codes "b", record { scope = codes "s"; state = completed; started_at = 3; response = 2 })
      ∷ [];
  max = 2;
}

new_at_empty : (claim 0 empty (codes "a") (codes "s") 1).1.0 ≡ claim_new
unfolding claim lookup
new_at_empty = refl

s_ne_t : ◌≢◌ {A = Text} (codes "t") (codes "s")
s_ne_t = ground arith

others_leave : AllLeaveOpen {Response = ℕ} (codes "a") (codes "s") other_calls
others_leave = (tt, (inr s_ne_t, tt))

claim_exclusive_example :
    (claim 0
      (run 0 (claim 0 empty (codes "a") (codes "s") 1).0 other_calls)
      (codes "a")
      (codes "s")
      7).1.0
    ≡ (if text_eq (codes "s") (codes "s") then claim_in_progress else claim_conflict)
claim_exclusive_example =
    claim_exclusive 0 empty (codes "a") (codes "s") 1 tt new_at_empty other_calls others_leave
      (codes "s") 7

two_jobs-IsMap : IsMap two_jobs.entries
unfolding lookup text_eq
two_jobs-IsMap = (refl, (refl, tt))

c_is_free : lookup (codes "c") two_jobs.entries ≡ none
unfolding lookup text_eq
c_is_free = refl

c_is_new : (claim 0 two_jobs (codes "c") (codes "s") 9).1.0 ≡ claim_new
unfolding claim lookup text_eq
c_is_new = refl
