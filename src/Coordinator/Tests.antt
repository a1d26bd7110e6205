-- ===== src/Coordinator/Tests.antt =====
-- Runs of the coordinator, and its theorems at concrete inputs.
use vps_manager.Base.{
  ◌*◌, ◌≡◌, ◌≢◌, refl, true, some, List, [], ◌∷◌, arith, pos, second, codes, ok, err, lookup,
  trim_space,
}
use vps_manager.Encoding.Base64
use vps_manager.Coordinator.Validation.{Error, valid_input, valid_identifier}
use vps_manager.Coordinator.{
  Lease, empty, acquire_lease, renew_lease, release_lease, put_idempotency, request_cancellation,
}
use vps_manager.Coordinator.Leases.{
  Call, acquires, puts, run, acquire_exclusive, renew_succeeds, fenced,
}

abbrev lease : Lease
lease = record {
  key = codes "job_1";
  token = Base64.encode (codes "r1");
  expires = 61 * second;
  resource = codes "job_1";
}

granted :
    (acquire_lease empty
      (codes "job_1")
      (codes "w1")
      (pos (60 * second))
      second
      (some (codes "r1"))).1
    ≡ ok lease
unfolding acquire_lease valid_input trim_space lookup
granted = refl

abbrev others : List Call
others =
    acquires (codes "job_1") (codes "w2") (pos second) (30 * second) (some (codes "r2"))
    ∷ puts (codes "k") (codes "v") (pos second) 5
    ∷ []

acquire_exclusive_example :
    (acquire_lease
      (run
        (acquire_lease empty
          (codes "job_1")
          (codes "w1")
          (pos (60 * second))
          second
          (some (codes "r1"))).0
        others)
      (codes "job_1")
      (codes "w3")
      (pos second)
      (40 * second)
      (some (codes "r3"))).1
    ≢ ok lease
acquire_exclusive_example =
    acquire_exclusive empty (codes "job_1") (codes "w1") (pos (60 * second)) second
      (some (codes "r1")) lease granted others (omega arith) (codes "w3") (pos second) (40 * second)
      (some (codes "r3")) lease (omega arith)

renew_succeeds_example :
    (renew_lease
      (run
        (acquire_lease empty
          (codes "job_1")
          (codes "w1")
          (pos (60 * second))
          second
          (some (codes "r1"))).0
        others)
      lease
      (pos (30 * second))
      (50 * second)).1
    ≡ ok (record lease { expires = 80 * second })
renew_succeeds_example =
    renew_succeeds empty (codes "job_1") (codes "w1") (pos (60 * second)) second (some (codes "r1"))
      lease granted others (omega arith) (pos (30 * second)) (50 * second) (omega arith) refl refl

abbrev old_lease : Lease
old_lease = record lease { token = Base64.encode (codes "r0") }

tokens_differ : lease.token ≢ old_lease.token
unfolding Base64.encode
tokens_differ = ground arith

fenced_example :
    let m' =
      (acquire_lease empty
        (codes "job_1")
        (codes "w1")
        (pos (60 * second))
        second
        (some (codes "r1"))).0 in
    (renew_lease m' old_lease (pos second) (2 * second) ≡ (m', err Error.lease_lost))
    × (release_lease m' old_lease ≡ (m', err Error.lease_lost))
fenced_example =
    fenced empty old_lease (codes "w1") (pos (60 * second)) (pos second) second (2 * second)
      (some (codes "r1")) lease granted tokens_differ refl refl

put_created : (put_idempotency empty (codes "k") (codes "v") (pos (60 * second)) second).1 ≡ ok true
unfolding put_idempotency valid_input valid_identifier trim_space lookup
put_created = refl

cancel_written : (request_cancellation empty (codes "job") (pos (60 * second)) second).1 ≡ ok tt
unfolding request_cancellation valid_input trim_space
cancel_written = refl
