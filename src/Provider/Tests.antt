-- ===== src/Provider/Tests.antt =====
-- A client's entries at work, and their theorems at concrete inputs.
use vps_manager.Base.{
  ◌≡◌, ◌≢◌, refl, List, [], ◌∷◌, arith, Text, codes, lookup, insert, delete, text_eq, text_eq_iff,
  ok,
}
use vps_manager.Provider.{
  Client, executes, conflicts, begin, cache_key, make_room, new_entry, finish,
}
use vps_manager.Provider.Histories.{Event, begins, finishes, run, never_executed_twice}
use vps_manager.Provider.Answers.{finished_is_answered, after_result}

abbrev key : Text
key = cache_key (codes "deploy") (codes "account_1") (codes "key_1")

abbrev other_key : Text
other_key = cache_key (codes "deploy") (codes "account_1") (codes "key_2")

-- Room for two calls.
abbrev client : Client Unit Text
client = record { idem = []; max_idem_entries = 2 }

abbrev calling : Client Unit Text
calling = record client { idem = (key, new_entry (codes "f") 10) ∷ [] }

begins_first : begin client key (codes "f") 10 ≡ (calling, executes)
unfolding begin make_room insert delete lookup
begins_first = refl

-- Another call comes and goes, and its entry makes room for a third.
abbrev others : List (Event Unit Text)
others =
    begins other_key (codes "g") 11
    ∷ finishes other_key (ok (codes "done"))
    ∷ begins (codes "third") (codes "h") 12
    ∷ []

other_key-differs : other_key ≢ key
unfolding text_eq
other_key-differs = λ e. cc ((text_eq_iff other_key key).1 e)

never_executed_twice_example : (begin (run calling others) key (codes "other") 13).1 ≡ conflicts
unfolding text_eq
never_executed_twice_example =
    never_executed_twice client calling key (codes "f") (codes "other") 10 13 others tt begins_first
      (other_key-differs, tt)

finished_is_answered_example :
    (begin (finish (run calling others) key (ok (codes "made"))) key (codes "f") 14).1
    ≡ after_result (codes "f") 10 (ok (codes "made"))
finished_is_answered_example =
    finished_is_answered 2 client calling key (codes "f") 10 14 others (ok (codes "made"))
      (refl, omega arith, tt) begins_first (other_key-differs, tt)
