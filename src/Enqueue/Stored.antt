-- ===== src/Enqueue/Stored.antt =====
-- The outcomes of a call of enqueue: the job that it stores, and what failed.
use mongoqueue.Base.{String, ℕ, refl, none, some, ok, err, ◌≡◌, Result, ◌⊎◌}
use mongoqueue.Base.Int.{ℤ, pos, ◌+ℤ◌}
use mongoqueue.Errors.{Error, duplicate_job, driver, wrapped, other}
use mongoqueue.VTime.{next_vstamp}
use mongoqueue.Mongo.Collection.{Content, Same, Wrote}
use mongoqueue.Opts.{NormalizedEnqueue}
use mongoqueue.Cache.Table.{Lwm, TimelineKey, at}
use mongoqueue.Cache.{VtimeCache, Hooks}
use mongoqueue.Cache.Outcome.{ReserveFailed, Refused, Placement}
use mongoqueue.Cache.Settle.{Committed}
use mongoqueue.Enqueue.{Payload, new_job}
use mongoqueue.Job.{Job}

-- The timeline that a call of enqueue is on.
abbrev pub key_of : NormalizedEnqueue → TimelineKey
key_of n = record { tenant = n.tenant_id; partition = n.partition }

-- A new job under an id that was free.
abbrev pub Added : Job → Content → Content → Type 0
Added j before after = (before j.id ≡ none) × Wrote j.id j before after

-- A job as a call of enqueue stores it: pending, never claimed, visible after the delay, with the
-- options' and the caller's values.
pub record IsEnqueued (p : Payload) (n : NormalizedEnqueue) (vstamp : ℤ) (j : Job) : Type 0 where
  pub id : j.id ≡ n.job_id
  pub tenant : j.tenant_id ≡ n.tenant_id
  pub partition : j.partition ≡ n.partition
  pub cost : j.cost ≡ n.cost
  pub stamp : j.vstamp ≡ vstamp
  pub liveness : j.liveness ≡ "pending"
  pub resolution : j.resolution ≡ ""
  pub claim_id : j.claim_id ≡ ""
  pub visible_at : j.visible_at ≡ p.date_of (p.clock +ℤ n.delay)
  pub attempts : j.attempts ≡ pos 0
  pub stamped_by : j.stamped_by ≡ p.node_id
  pub resolved_at : j.resolved_at ≡ none
  pub kind : j.kind ≡ p.kind
  pub body : j.body ≡ p.body

-- A new pending job with a stamp, under the call's id, which was free.
abbrev pub AddedJob : Payload → NormalizedEnqueue → ℤ → Content → Content → Type 0
AddedJob p n vstamp before after = (j : Job) × IsEnqueued p n vstamp j × Added j before after

pub new_job-AddedJob :
    (p : Payload) (n : NormalizedEnqueue) (v : ℤ) (before after : Content)
    → Added (new_job p n v) before after
    → AddedJob p n v before after
new_job-AddedJob p n v before after x = (
  new_job p n v,
  record {
    id = refl;
    tenant = refl;
    partition = refl;
    cost = refl;
    stamp = refl;
    liveness = refl;
    resolution = refl;
    claim_id = refl;
    visible_at = refl;
    attempts = refl;
    stamped_by = refl;
    resolved_at = refl;
    kind = refl;
    body = refl;
  },
  x,
)

module _ (hooks : Hooks) (p : Payload) (n : NormalizedEnqueue) (a : ℕ) (cache : VtimeCache) where
  -- A stamp that follows the clock at which the timeline is placed.
  pub record Follows (lwm' : Lwm) (vstamp : ℤ) : Type 0 where
    pub clock : ℤ
    pub placed : Placement hooks n.tenant_id n.partition (at a cache.heap) cache.lwm lwm' clock
    pub stamped : next_vstamp clock n.cost n.weight ≡ ok vstamp

  -- The job is stored with such a stamp, and the timeline's clock stands at that stamp.
  pub record Stored (before after : Content) (cache' : VtimeCache) : Type 0 where
    pub vstamp : ℤ
    pub follows : Follows cache'.lwm vstamp
    pub timeline : Committed a cache cache' vstamp
    pub added : AddedJob p n vstamp before after

  -- The frontier or the seed could not be read, or there is no next stamp.
  abbrev pub NotReserved : Error → VtimeCache → Type 0
  NotReserved e cache' =
      ReserveFailed hooks n.tenant_id n.partition n.cost n.weight (at a cache.heap) cache.lwm
        cache'.lwm e

  -- A failed insert: the id is taken, or the driver reports another error and the job may or may
  -- not be stored.
  abbrev pub InsertFailed : Error → VtimeCache → Content → Content → Type 0
  InsertFailed e cache' before after =
      ((e ≡ duplicate_job) × ((k : Job) × (before n.job_id ≡ some k)) × Same before after)
      ⊎ ((s : String) × (e ≡ wrapped "insert job" (driver (other s)))
          × (Same before after ⊎ ((v : ℤ) × Follows cache'.lwm v × AddedJob p n v before after)))

  abbrev pub EnqueueOutcome : Result Error (Unit {0}) → VtimeCache → Content → Content → Type 0
  EnqueueOutcome (ok _) cache' before after = Stored before after cache'
  EnqueueOutcome (err e) cache' before after =
      Refused a cache cache'
      × ((NotReserved e cache' × Same before after) ⊎ InsertFailed e cache' before after)
