-- ===== src/Job.antt =====
-- job.go: the durable record, with the wire names of its bson tags.
use mongoqueue.Base.{
  ◌≢◌, true≢false, sym, eq_iff, ℕ, String, Option, none, some, List, ◌==◌, if◌then◌else◌,
}
use mongoqueue.Base.Int.{ℤ}
use mongoqueue.Bson.{Value, text, int, date}

abbrev pub liveness_pending : String
liveness_pending = "pending"

abbrev pub liveness_resolved : String
liveness_resolved = "resolved"

abbrev pub resolution_completed : String
resolution_completed = "completed"

abbrev pub resolution_canceled : String
resolution_canceled = "canceled"

-- A time is in milliseconds, as stored. An absent resolution is "", as in Go; an absent resolved_at
-- is `none`.
pub record Job : Type 0 where
  pub id : String
  pub tenant_id : String
  pub partition : String
  pub cost : ℤ
  pub vstamp : ℤ
  pub liveness : String
  pub resolution : String
  pub claim_id : String
  pub visible_at : ℤ
  pub attempts : ℤ
  pub stamped_by : String
  pub resolved_at : Option ℤ
  pub kind : String
  pub body : List ℕ

-- The fields that the filters compare as texts, by their bson tags.
unfoldable pub text_field : String → Job → Option String
text_field k j =
    if k == "_id"
    then some j.id
    else if k == "tenant"
    then some j.tenant_id
    else if k == "partition"
    then some j.partition
    else if k == "liveness"
    then some j.liveness
    else if k == "claim_id"
    then some j.claim_id
    else if k == "stamped_by"
    then some j.stamped_by
    else if k == "kind"
    then some j.kind
    else none

-- A record in which a field has a new value, as `$set` leaves it. `none` where the document would
-- not be one of these records: an unknown name, a value of another type, the bytes of the body, and
-- the _id, which the server refuses to change.
unfoldable pub assign : String → Value → Job → Option Job
assign k (text s) j =
    if k == "tenant"
    then some (record j { tenant_id = s })
    else if k == "partition"
    then some (record j { partition = s })
    else if k == "liveness"
    then some (record j { liveness = s })
    else if k == "resolution"
    then some (record j { resolution = s })
    else if k == "claim_id"
    then some (record j { claim_id = s })
    else if k == "stamped_by"
    then some (record j { stamped_by = s })
    else if k == "kind"
    then some (record j { kind = s })
    else none
assign k (date t) j =
    if k == "visible_at"
    then some (record j { visible_at = t })
    else if k == "resolved_at"
    then some (record j { resolved_at = some t })
    else none
assign k (int n) j =
    if k == "cost"
    then some (record j { cost = n })
    else if k == "vstamp"
    then some (record j { vstamp = n })
    else if k == "attempts"
    then some (record j { attempts = n })
    else none
assign k _ j = none

pub resolved_ne_pending : liveness_resolved ≢ liveness_pending
resolved_ne_pending q = true≢false (sym ((eq_iff liveness_resolved liveness_pending).1 q))
