-- ===== src/Resolve.antt =====
-- resolve.go: the terminal writes, and the read of a job's stored state.
pub mod Terminal
pub mod Cancel
pub mod Final
use mongoqueue.Base.{ℕ, String, Result, ok, err, eqb, ◌==◌, if◌then◌else◌}
use mongoqueue.Base.Int.{ℤ}
use mongoqueue.Errors.{
  Error, DriverError, no_documents, empty_resolution, missing_job_id, job_not_found, job_resolved,
  driver, wrapped,
}
use mongoqueue.Bson.{Doc, empty, entry, text, set_pipeline}
use mongoqueue.Job.{Job, liveness_pending, liveness_resolved, resolution_canceled}
use mongoqueue.Mongo.Language.{Language, operator}
use mongoqueue.Mongo.Collection.{Collection}
use mongoqueue.Claim.{ClaimedJob}
use mongoqueue.Lease.{fenced_update}

abbrev pub resolve_set : String → Doc
resolve_set r =
    entry "liveness" (text liveness_resolved)
      (entry "resolution" (operator "$literal" (text r)) (entry "resolved_at" (text "$$NOW") empty))

abbrev pub cancel_filter : String → Doc
cancel_filter job_id = entry "_id" (text job_id) (entry "liveness" (text liveness_pending) empty)

abbrev pub id_filter : String → Doc
id_filter job_id = entry "_id" (text job_id) empty

found : Result DriverError Job → Result Error Job
found (ok job) = ok job
found (err no_documents) = err job_not_found
found (err e) = err (wrapped "get job" (driver e))

-- The classification of a missed cancel by its diagnostic read.
missed : Result Error Job → Result Error (Unit {0})
missed (ok _) = err job_resolved
missed (err e) = err e

module _ {l : Language} (c : Collection l) where
  unfoldable pub complete : ClaimedJob → String → ℤ → c.Db → Result Error (Unit {0}) × c.Db
  complete h r now db =
      if r == ""
      then (err empty_resolution, db)
      else fenced_update c h "complete" (resolve_set r) now db

  pub get : String → ℤ → c.Db → Result Error Job
  unfolding found
  get job_id now db =
      if job_id == ""
      then err missing_job_id
      else found (c.find_one (id_filter job_id) empty empty now db)

  -- `between` is what other clients do to the collection between the update and the read.
  unfoldable pub canceled :
      String → (c.Db → c.Db) → ℤ → Result DriverError ℕ × c.Db → Result Error (Unit {0}) × c.Db
  unfolding missed
  canceled job_id between now (ok n, db) =
      if eqb n 1 then (ok tt, db) else let db' = between db in (missed (get job_id now db'), db')
  canceled job_id between now (err e, db) = (err (wrapped "cancel job" (driver e)), db)

  unfoldable pub cancel : String → (c.Db → c.Db) → ℤ → c.Db → Result Error (Unit {0}) × c.Db
  unfolding canceled
  cancel job_id between now db =
      if job_id == ""
      then (err missing_job_id, db)
      else canceled job_id between now (
          c.update_one (cancel_filter job_id) (set_pipeline (resolve_set resolution_canceled)) now
            db)
