-- ===== src/Lease.antt =====
-- lease.go: the operations of a claim's holder, guarded by the claim id.
pub mod Fence
pub mod Holder
use mongoqueue.Base.{ℕ, String, Result, ok, err, eqb, if◌then◌else◌}
use mongoqueue.Base.Int.{ℤ, pos, leb_ℤ, ltb_ℤ}
use mongoqueue.Errors.{
  Error, DriverError, invalid_lease, invalid_delay, lease_lost, driver, wrapped,
}
use mongoqueue.Duration.{duration_millis}
use mongoqueue.Bson.{Doc, empty, entry, text, int, set_pipeline}
use mongoqueue.Job.{liveness_pending}
use mongoqueue.Mongo.Language.{Language, operator, pair}
use mongoqueue.Mongo.Collection.{Collection}
use mongoqueue.Claim.{ClaimedJob}

abbrev pub fence_filter : ClaimedJob → Doc
fence_filter h =
    entry "_id" (text h.job_id)
      (entry "claim_id" (text h.claim_id) (entry "liveness" (text liveness_pending) empty))

-- `$$NOW` plus a duration.
abbrev pub visible_after : ℤ → Doc → Doc
visible_after d rest =
    entry "visible_at" (operator "$add" (pair (text "$$NOW") (int (duration_millis d)))) rest

abbrev pub release_set : ℤ → Doc
release_set delay = visible_after delay (entry "claim_id" (operator "$literal" (text "")) empty)

unfoldable pub matched : String → Result DriverError ℕ → Result Error (Unit {0})
matched op (ok n) = if eqb n 0 then err lease_lost else ok tt
matched op (err e) = err (wrapped op (driver e))

module _ {l : Language} (c : Collection l) where
  unfoldable pub fenced_update :
      ClaimedJob → String → Doc → ℤ → c.Db → Result Error (Unit {0}) × c.Db
  unfolding matched
  fenced_update h op set now db =
      let (r, db') = c.update_one (fence_filter h) (set_pipeline set) now db in (matched op r, db')

  pub heartbeat : ClaimedJob → ℤ → ℤ → c.Db → Result Error (Unit {0}) × c.Db
  heartbeat h extend now db =
      if leb_ℤ extend (pos 0)
      then (err invalid_lease, db)
      else fenced_update h "heartbeat" (visible_after extend empty) now db

  pub release : ClaimedJob → ℤ → ℤ → c.Db → Result Error (Unit {0}) × c.Db
  release h delay now db =
      if ltb_ℤ delay (pos 0)
      then (err invalid_delay, db)
      else fenced_update h "release" (release_set delay) now db
