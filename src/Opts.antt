-- ===== src/Opts.antt =====
-- EnqueueOpts and its normalize (enqueue.go).
pub mod Valid
use mongoqueue.Base.{String, Result, ok, err, ◌==◌, ◌>>=◌, if◌then◌else◌}
use mongoqueue.Base.Int.{ℤ, pos, ltb_ℤ}
use mongoqueue.Errors.{Error, missing_job_id, invalid_delay}
use mongoqueue.VTime.{normalize_cost, normalize_weight}

abbrev pub default_partition : String
default_partition = "default"

pub record EnqueueOpts : Type 0 where
  pub job_id : String
  pub tenant_id : String
  pub partition : String
  pub cost : ℤ
  pub weight : ℤ
  pub delay : ℤ

pub record NormalizedEnqueue : Type 0 where
  pub job_id : String
  pub tenant_id : String
  pub partition : String
  pub cost : ℤ
  pub weight : ℤ
  pub delay : ℤ

-- `if partition == "" { partition = defaultPartition }`, as at enqueue and at claim.
abbrev pub or_default : String → String
or_default partition = if partition == "" then default_partition else partition

unfoldable pub normalize : EnqueueOpts → Result Error NormalizedEnqueue
normalize o = if o.job_id == "" then err missing_job_id else do
  weight ← normalize_weight o.weight
  if ltb_ℤ o.delay (pos 0)
      then err invalid_delay
      else ok (record {
        job_id = o.job_id;
        tenant_id = o.tenant_id;
        partition = or_default o.partition;
        cost = normalize_cost o.cost;
        weight = weight;
        delay = o.delay;
      })
