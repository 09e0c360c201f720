-- ===== src/Examples/Lives.antt =====
-- Runs of operations on three stored jobs.
use mongoqueue.Examples.{second_job, stored, holder}
use mongoqueue.Mongo.Memory.Outcome.{memory}
use mongoqueue.Mongo.Memory.Store.{probe, find_id}
use mongoqueue.Base.{List, [], ◌∷◌, refl, ok, ◌≡◌, ◌≢◌}
use mongoqueue.Base.Int.{pos, ◌+ℤ◌, rem, quot}
use mongoqueue.Claim.{claim, handle, ClaimedJob}
use mongoqueue.Resolve.{complete, cancel, canceled}
use mongoqueue.Examples.Fences.{claimed_first, completed_first, new_handle, next_handle, early}
use mongoqueue.Life.Acts.{Act, claims, cancels, completes, perform, run}
use mongoqueue.Life.Abstract.{Cause}
use mongoqueue.Life.Simulation.{perform-AllMove}
use mongoqueue.Life.Writes.{AllMove}
use mongoqueue.Life.Resolution.{
  Terminal, completion, cancellation, single_resolution, Succeeds, write, target,
  resolution_excludes_claim,
}
use mongoqueue.Life.Lease.{lease_exclusive}
use mongoqueue.Lease.{fenced_update, matched}
use mongoqueue.Job.{text_field, assign}
use mongoqueue.Duration.{duration_millis}
use mongoqueue.Base.Int64.{rem64, to_int64, quot64, residue, signed}

-- A canceler that finds no job, then the completion of the held one.
abbrev acts : List (Act memory)
acts = cancels "gone" (pos 102) ∷ completes holder "sent" (pos 103) ∷ []

abbrev AnyCause : Cause → Type 0
AnyCause x = Unit

abbrev first_claim : Act memory
first_claim = claims "c9" "" (pos 5_000_000) (pos 100)

perform-AllMove_example :
    AllMove AnyCause (memory.content stored) (memory.content (perform memory first_claim stored))
perform-AllMove_example = perform-AllMove AnyCause memory first_claim stored tt

-- The holder completes its job; a claim follows; a cancel of the job fails.
abbrev holder_completes : Terminal
holder_completes = completion holder "sent" (pos 100)

abbrev late_cancel : Terminal
late_cancel = cancellation "h" (pos 200)

abbrev one_claim : List (Act memory)
one_claim = claims "c9" "" (pos 5_000_000) (pos 150) ∷ []

single_resolution_example :
    ¬ Succeeds memory late_cancel (run memory one_claim (write memory holder_completes stored).1)
single_resolution_example =
    single_resolution memory holder_completes late_cancel one_claim stored refl completed_first
      ((λ e. cc), tt)

-- Between two claims, the held job is completed.
claimed_later :
    (claim memory "c10" ""
      (pos 5_000_000)
      (pos 104)
      (run memory acts (claim memory "c9" "" (pos 5_000_000) (pos 100) stored).1)).0
    ≡ ok next_handle
unfolding claim handle complete cancel canceled perform run fenced_update matched memory stored
    probe find_id text_field assign ◌+ℤ◌ duration_millis rem64 to_int64 rem quot64 quot residue
    signed
claimed_later = refl

lease_exclusive_example : next_handle.job_id ≢ new_handle.job_id
lease_exclusive_example =
    lease_exclusive memory acts "c9" "c10" "" "" (pos 5_000_000) (pos 5_000_000) (pos 100) (pos 104)
      stored new_handle next_handle claimed_first (tt, ((λ e. cc), tt)) early claimed_later

-- A claim after the completion and another one gets "b".
abbrev last_handle : ClaimedJob
last_handle = record {
  job = record second_job { claim_id = "c10"; visible_at = pos 156; attempts = pos 1 };
  job_id = "b";
  claim_id = "c10";
}

claimed_last :
    (claim memory "c10" ""
      (pos 5_000_000)
      (pos 151)
      (run memory one_claim (write memory holder_completes stored).1)).0
    ≡ ok last_handle
unfolding claim handle complete cancel canceled perform run fenced_update matched memory stored
    probe find_id text_field assign ◌+ℤ◌ duration_millis rem64 to_int64 rem quot64 quot residue
    signed
claimed_last = refl

resolution_excludes_claim_example : last_handle.job_id ≢ target holder_completes
resolution_excludes_claim_example =
    resolution_excludes_claim memory holder_completes one_claim stored "c10" "" (pos 5_000_000)
      (pos 151) last_handle completed_first ((λ e. cc), tt) claimed_last
