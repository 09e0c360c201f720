-- ===== src/Enqueue.antt =====
-- enqueue.go: the reserve, insert, commit sequence, and the hooks that New wires (queue.go).
pub mod Stored
pub mod Outcome
pub mod Order
pub mod Placement
use mongoqueue.Base.{ℕ, String, Option, none, some, List, Result, ok, err}
use mongoqueue.Base.Int.{ℤ, ◌+ℤ◌, pos}
use mongoqueue.Errors.{Error, DriverError, duplicate_key, duplicate_job, driver, wrapped}
use mongoqueue.Job.{Job, liveness_pending}
use mongoqueue.Mongo.Language.{Language}
use mongoqueue.Mongo.Collection.{Collection}
use mongoqueue.Opts.{EnqueueOpts, NormalizedEnqueue, normalize}
use mongoqueue.Frontier.{seed_tenant_vtime, compute_lwm}
use mongoqueue.Cache.{VtimeCache, Hooks, Reservation, lock_timeline, reserve_locked, commit, abort}

-- What one call of enqueue takes besides the options: the kind and the marshalled body, the node's
-- id, the node's clock in nanoseconds, and the driver's encoding of a time as a BSON date.
pub record Payload : Type 0 where
  pub kind : String
  pub body : List ℕ
  pub node_id : String
  pub clock : ℤ
  pub date_of : ℤ → ℤ

abbrev pub new_job : Payload → NormalizedEnqueue → ℤ → Job
new_job p n vstamp = record {
  id = n.job_id;
  tenant_id = n.tenant_id;
  partition = n.partition;
  cost = n.cost;
  vstamp = vstamp;
  liveness = liveness_pending;
  resolution = "";
  claim_id = "";
  visible_at = p.date_of (p.clock +ℤ n.delay);
  attempts = pos 0;
  stamped_by = p.node_id;
  resolved_at = none;
  kind = p.kind;
  body = p.body;
}

module _ {l : Language} (c : Collection l) where
  -- The database at each of the reads that a reservation may make, and their server time.
  pub record Reads : Type 0 where
    pub now : ℤ
    pub at_clock : c.Db
    pub at_fallback : c.Db
    pub at_seed : c.Db

  -- `q.vtimes.seedHook = q.seedTenantVtime; q.vtimes.lwmHook = q.computeLWM`
  abbrev pub hooks_of : Reads → Hooks
  hooks_of r = record {
    seed_hook = some (seed_tenant_vtime c r.now r.at_seed);
    lwm_hook = some (compute_lwm c r.now r.at_clock r.at_fallback);
  }

  -- What a call of enqueue leaves; `none` while another goroutine holds the timeline's lock.
  abbrev pub Enqueued : Type 0
  Enqueued = Option (Result Error (Unit {0}) × VtimeCache × c.Db)

  -- Commit on success; the deferred abort on any error.
  unfoldable pub settle : Reservation → VtimeCache → Result DriverError (Unit {0}) × c.Db → Enqueued
  settle res cache (ok _, db) = some (ok tt, commit res cache, db)
  settle res cache (err duplicate_key, db) = some (err duplicate_job, abort res cache, db)
  settle res cache (err e, db) = some (err (wrapped "insert job" (driver e)), abort res cache, db)

  unfoldable pub insert :
      Payload → NormalizedEnqueue → c.Db → Result Error Reservation × VtimeCache → Enqueued
  unfolding settle
  insert p n db (ok res, cache) = settle res cache (c.insert_one (new_job p n res.vstamp) db)
  insert p n db (err e, cache) = some (err e, cache, db)

  unfoldable pub enqueue_normalized :
      Payload
      → List (VtimeCache → VtimeCache)
      → Reads
      → VtimeCache
      → c.Db
      → NormalizedEnqueue
      → Enqueued
  unfolding insert
  enqueue_normalized p windows reads cache db n =
      elim (lock_timeline windows (record { tenant = n.tenant_id; partition = n.partition })
        cache) [
          | none ↦ none
          | some (a, locked) ↦
              insert p n db
                (reserve_locked (hooks_of reads) n.tenant_id n.partition n.cost n.weight a locked)
        ]

  unfoldable pub enqueue :
      Payload → List (VtimeCache → VtimeCache) → Reads → EnqueueOpts → VtimeCache → c.Db → Enqueued
  unfolding enqueue_normalized
  enqueue p windows reads opts cache db = elim (normalize opts) [
    | ok n ↦ enqueue_normalized p windows reads cache db n
    | err e ↦ some (err e, cache, db)
  ]
