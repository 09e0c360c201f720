-- ===== src/Claim.antt =====
-- claim.go: a claim leases the first visible pending job of a partition. The claim id that the
-- driver mints, the server time and the database are arguments.
pub mod Order
pub mod Dispatch
pub mod Exclusive
use mongoqueue.Base.{String, Result, ok, err, if◌then◌else◌}
use mongoqueue.Base.Int.{ℤ, pos, leb_ℤ}
use mongoqueue.Errors.{Error, DriverError, no_documents, no_job, invalid_lease, driver, wrapped}
use mongoqueue.Duration.{duration_millis}
use mongoqueue.Bson.{Doc, empty, entry, text, int, set_pipeline}
use mongoqueue.Job.{Job, liveness_pending}
use mongoqueue.Mongo.Language.{Language, operator, pair}
use mongoqueue.Mongo.Collection.{Collection, ReturnDocument}
use mongoqueue.Opts.{or_default}

pub record ClaimedJob : Type 0 where
  pub job : Job
  pub job_id : String
  pub claim_id : String

abbrev pub claim_filter : String → Doc
claim_filter partition = entry "partition" (text partition) (
    entry "liveness" (text liveness_pending)
      (entry "$expr" (operator "$lte" (pair (text "$visible_at") (text "$$NOW"))) empty))

abbrev pub claim_sort : Doc
claim_sort = entry "vstamp" (int (pos 1)) (entry "_id" (int (pos 1)) empty)

abbrev pub claim_set : String → ℤ → Doc
claim_set claim_id lease = entry "claim_id" (operator "$literal" (text claim_id)) (
    entry "visible_at" (operator "$add" (pair (text "$$NOW") (int (duration_millis lease))))
      (entry "attempts" (operator "$add" (pair (text "$attempts") (int (pos 1)))) empty))

-- What `Claim` makes of the driver's answer.
unfoldable pub handle : String → Result DriverError Job → Result Error ClaimedJob
handle claim_id (ok job) = ok (record { job = job; job_id = job.id; claim_id = claim_id })
handle claim_id (err no_documents) = err no_job
handle claim_id (err e) = err (wrapped "claim in partition" (driver e))

module _ {l : Language} (c : Collection l) where
  unfoldable pub claim : String → String → ℤ → ℤ → c.Db → Result Error ClaimedJob × c.Db
  unfolding handle
  claim claim_id partition lease now db =
      if leb_ℤ lease (pos 0)
      then (err invalid_lease, db)
      else let (r, db') =
          c.find_one_and_update (claim_filter (or_default partition)) claim_sort
            (set_pipeline (claim_set claim_id lease)) ReturnDocument.after now db in
        (handle claim_id r, db')
