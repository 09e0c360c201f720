-- ===== src/Ttl.antt =====
-- queue.go: EnsureTTLIndex, whose index the server creates.
pub mod Bounds
pub mod Partial
use mongoqueue.Base.{String, some, Result, ok, err, if◌then◌else◌, ◌||◌, ◌^◌, ◌-◌}
use mongoqueue.Base.Int.{ℤ, pos, ltb_ℤ}
use mongoqueue.Base.Int64.{quot64}
use mongoqueue.Errors.{Error, DriverError, ttl_retention, driver, wrapped}
use mongoqueue.Bson.{empty, entry, text, int}
use mongoqueue.Job.{liveness_resolved}
use mongoqueue.Mongo.Index.{IndexModel}

abbrev pub second : ℤ
second = pos 1_000_000_000

abbrev pub max_int32 : ℤ
max_int32 = pos (2 ^ 31 - 1)

abbrev pub ttl_index_name : String
ttl_index_name = "mongoqueue_ttl"

-- `int32(seconds)` is taken where the bounds were checked, and is the number itself there.
abbrev pub ttl_index : ℤ → IndexModel
ttl_index seconds = record {
  keys = entry "resolved_at" (int (pos 1)) empty;
  name = ttl_index_name;
  expire_after = some seconds;
  partial_filter = entry "liveness" (text liveness_resolved) empty;
}

pub created : Result DriverError (Unit {0}) → Result Error (Unit {0})
created (ok _) = ok tt
created (err e) = err (wrapped "create TTL index" (driver e))

-- `create` is the driver's call.
pub ensure_ttl_index : (IndexModel → Result DriverError (Unit {0})) → ℤ → Result Error (Unit {0})
unfolding created
ensure_ttl_index create retention =
    let seconds = quot64 retention second in
    if ltb_ℤ seconds (pos 1) || ltb_ℤ max_int32 seconds
    then err ttl_retention
    else created (create (ttl_index seconds))
