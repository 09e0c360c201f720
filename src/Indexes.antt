-- ===== src/Indexes.antt =====
-- queue.go: EnsureIndexes, whose three partial indexes the server creates.
pub mod Serving
use mongoqueue.Base.{String, List, [], ◌∷◌, none, Result, ok, err}
use mongoqueue.Base.Int.{pos, negsuc}
use mongoqueue.Errors.{Error, DriverError, driver, wrapped}
use mongoqueue.Bson.{Doc, empty, entry, text, int}
use mongoqueue.Job.{liveness_pending}
use mongoqueue.Mongo.Language.{operator}
use mongoqueue.Mongo.Index.{IndexModel}

abbrev pub claim_index_name : String
claim_index_name = "mongoqueue_claim"

abbrev pub seed_index_name : String
seed_index_name = "mongoqueue_seed"

abbrev pub clock_index_name : String
clock_index_name = "mongoqueue_clock"

abbrev pub pending : Doc
pending = entry "liveness" (text liveness_pending) empty

abbrev pub claimed : Doc
claimed = entry "claim_id" (operator "$gt" (text "")) empty

abbrev pub claim_index : IndexModel
claim_index = record {
  keys = entry "partition" (int (pos 1)) (
      entry "vstamp" (int (pos 1))
        (entry "_id" (int (pos 1)) (entry "visible_at" (int (pos 1)) empty)));
  name = claim_index_name;
  expire_after = none;
  partial_filter = pending;
}

abbrev pub seed_index : IndexModel
seed_index = record {
  keys =
      entry "tenant" (int (pos 1))
        (entry "partition" (int (pos 1)) (entry "vstamp" (int (negsuc 0)) empty));
  name = seed_index_name;
  expire_after = none;
  partial_filter = pending;
}

abbrev pub clock_index : IndexModel
clock_index = record {
  keys = entry "partition" (int (pos 1)) (entry "vstamp" (int (negsuc 0)) empty);
  name = clock_index_name;
  expire_after = none;
  partial_filter = claimed;
}

abbrev pub index_models : List IndexModel
index_models = claim_index ∷ seed_index ∷ clock_index ∷ []

unfoldable pub indexes_created : Result DriverError (Unit {0}) → Result Error (Unit {0})
indexes_created (ok _) = ok tt
indexes_created (err e) = err (wrapped "create claim, seed, and clock indexes" (driver e))

-- `create_many` is the driver's call.
unfoldable pub ensure_indexes :
    (List IndexModel → Result DriverError (Unit {0})) → Result Error (Unit {0})
ensure_indexes create_many = indexes_created (create_many index_models)
