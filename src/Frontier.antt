-- ===== src/Frontier.antt =====
-- queue.go: the reads that place a timeline, its trailing edge and its partition's frontier.
pub mod Filters
pub mod Extremes
use mongoqueue.Base.{String, Bool, true, false, Result, ok, err}
use mongoqueue.Base.Int.{ℤ, pos, negsuc}
use mongoqueue.Errors.{Error, DriverError, no_documents, driver, wrapped}
use mongoqueue.Bson.{Doc, empty, entry, text, int}
use mongoqueue.Job.{Job, liveness_pending}
use mongoqueue.Mongo.Language.{Language, operator}
use mongoqueue.Mongo.Collection.{Collection}

abbrev pub seed_filter : String → String → Doc
seed_filter tenant partition =
    entry "tenant" (text tenant)
      (entry "partition" (text partition) (entry "liveness" (text liveness_pending) empty))

abbrev pub clock_filter : String → Doc
clock_filter partition =
    entry "partition" (text partition) (entry "claim_id" (operator "$gt" (text "")) empty)

abbrev pub pending_filter : String → Doc
pending_filter partition =
    entry "partition" (text partition) (entry "liveness" (text liveness_pending) empty)

abbrev pub vstamp_sort : ℤ → Doc
vstamp_sort dir = entry "vstamp" (int dir) empty

abbrev pub vstamp_projection : Doc
vstamp_projection = entry "vstamp" (int (pos 1)) (entry "_id" (int (pos 0)) empty)

-- (vstamp, ok, err) of the driver's answer
unfoldable pub decoded : Result DriverError Job → Result Error (ℤ × Bool)
decoded (ok doc) = ok (doc.vstamp, true)
decoded (err no_documents) = ok (pos 0, false)
decoded (err e) = err (wrapped "read vstamp" (driver e))

unfoldable pub seeded_from : Result Error (ℤ × Bool) → Result Error ℤ
seeded_from (ok (vstamp, _)) = ok vstamp
seeded_from (err e) = err (wrapped "seed vtime" e)

-- The second read is made only if the first finds nothing.
unfoldable pub or_else : Result Error (ℤ × Bool) → Result Error (ℤ × Bool) → Result Error (ℤ × Bool)
or_else (ok (lwm, true)) second = ok (lwm, true)
or_else (ok (lwm, false)) second = second
or_else (err e) second = err e

unfoldable pub located : Result Error (ℤ × Bool) → Result Error (ℤ × Bool)
located (ok r) = ok r
located (err e) = err (wrapped "compute frontier" e)

module _ {l : Language} (c : Collection l) where
  unfoldable pub first_vstamp : Doc → Doc → ℤ → c.Db → Result Error (ℤ × Bool)
  unfolding decoded
  first_vstamp filter sort now db = decoded (c.find_one filter sort vstamp_projection now db)

  unfoldable pub seed_tenant_vtime : ℤ → c.Db → String → String → Result Error ℤ
  unfolding seeded_from
  seed_tenant_vtime now db tenant partition =
      seeded_from (first_vstamp (seed_filter tenant partition) (vstamp_sort (negsuc 0)) now db)

  -- `db'` is the database at the second read.
  unfoldable pub compute_lwm : ℤ → c.Db → c.Db → String → Result Error (ℤ × Bool)
  unfolding or_else located
  compute_lwm now db db' partition = located (
      or_else (first_vstamp (clock_filter partition) (vstamp_sort (negsuc 0)) now db)
        (first_vstamp (pending_filter partition) (vstamp_sort (pos 1)) now db'))
