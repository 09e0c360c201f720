-- ===== src/Examples/Fences.antt =====
-- Handles that have lost their jobs.
use mongoqueue.Job.{text_field, assign}
use mongoqueue.Lease.{fenced_update, matched}
use mongoqueue.Base.Int64.{rem64, to_int64, quot64, residue, signed}
use mongoqueue.Duration.{duration_millis}
use mongoqueue.Resolve.{canceled, complete, cancel}
use mongoqueue.Claim.{handle, ClaimedJob, claim}
use mongoqueue.Mongo.Memory.Store.{probe, find_id}
use mongoqueue.Base.Int.{quot, rem, ◌+ℤ◌, pos, ◌<ℤ◌, ◌+ℤ◌}
use mongoqueue.Base.{refl, ok, ◌≡◌, arith}
use mongoqueue.Fencing.{FencedOut, claim-FencedOut, complete-FencedOut, cancel-FencedOut}
use mongoqueue.Examples.{first_job, second_job, stored, holder}
use mongoqueue.Mongo.Memory.Outcome.{memory}

-- The handle of a claim of "a" that a later one replaces, and that one's.
abbrev stale_handle : ClaimedJob
stale_handle = record { job = first_job; job_id = "a"; claim_id = "c1" }

abbrev pub new_handle : ClaimedJob
new_handle = record {
  job = record first_job { claim_id = "c9"; visible_at = pos 105; attempts = pos 1 };
  job_id = "a";
  claim_id = "c9";
}

pub claimed_first : (claim memory "c9" "" (pos 5_000_000) (pos 100) stored).0 ≡ ok new_handle
unfolding claim handle memory stored probe find_id text_field assign ◌+ℤ◌ duration_millis rem64
    to_int64 rem quot64 quot residue signed
claimed_first = refl

claim-FencedOut_example :
    FencedOut memory stale_handle (claim memory "c9" "" (pos 5_000_000) (pos 100) stored).1
claim-FencedOut_example =
    claim-FencedOut memory stale_handle "c9" "" (pos 5_000_000) (pos 100) stored new_handle
      claimed_first refl (λ e. cc)

pub completed_first : (complete memory holder "sent" (pos 100) stored).0 ≡ ok tt
unfolding complete memory fenced_update matched probe stored text_field
completed_first = refl

complete-FencedOut_example :
    FencedOut memory holder (complete memory holder "sent" (pos 100) stored).1
complete-FencedOut_example =
    complete-FencedOut memory holder holder "sent" (pos 100) stored completed_first refl

canceled_first : (cancel memory "h" (λ d. d) (pos 100) stored).0 ≡ ok tt
unfolding cancel canceled memory probe stored text_field
canceled_first = refl

cancel-FencedOut_example : FencedOut memory holder (cancel memory "h" (λ d. d) (pos 100) stored).1
cancel-FencedOut_example = cancel-FencedOut memory holder (λ d. d) (pos 100) stored canceled_first

-- The next claim, 4 ms later, gets "b".
abbrev pub next_handle : ClaimedJob
next_handle = record {
  job = record second_job { claim_id = "c10"; visible_at = pos 109; attempts = pos 1 };
  job_id = "b";
  claim_id = "c10";
}

pub early : pos 104 <ℤ (pos 100 +ℤ duration_millis (pos 5_000_000))
unfolding duration_millis ◌+ℤ◌ rem64 to_int64 rem quot64 quot residue signed
early = omega arith
