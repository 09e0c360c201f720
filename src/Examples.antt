-- ===== src/Examples.antt =====
-- Concrete jobs and collections in memory, on which the theorems are run.
mod Arithmetic
mod Dispatch
mod Timelines
mod Inserts
mod Upkeep
mod Fences
mod Lives
mod Setup
mod Contention
use mongoqueue.Base.{List, none, ◌∷◌, [], String, true}
use mongoqueue.Base.Int.{pos}
use mongoqueue.Job.{Job}
use mongoqueue.Claim.{ClaimedJob}
use mongoqueue.Mongo.Memory.Outcome.{memory}
use mongoqueue.Opts.{EnqueueOpts}
use mongoqueue.Cache.Table.{TimelineKey, TenantVtime, fresh}
use mongoqueue.Cache.{VtimeCache}

-- A pending job of tenant "acme".
abbrev pub first_job : Job
first_job = record {
  id = "a";
  tenant_id = "acme";
  partition = "default";
  cost = pos 1;
  vstamp = pos 1_000;
  liveness = "pending";
  resolution = "";
  claim_id = "";
  visible_at = pos 50;
  attempts = pos 0;
  stamped_by = "node";
  resolved_at = none;
  kind = "mail";
  body = [];
}

abbrev pub second_job : Job
second_job = record first_job { id = "b"; vstamp = pos 2_000 }

-- One that a worker holds under the claim id "c1".
abbrev pub held_job : Job
held_job = record first_job { id = "h"; claim_id = "c1"; visible_at = pos 900; attempts = pos 1 }

abbrev pub jobs : List Job
jobs = second_job ∷ first_job ∷ held_job ∷ []

abbrev pub holder : ClaimedJob
holder = record { job = held_job; job_id = "h"; claim_id = "c1" }

-- The jobs, as a state of the collection in memory.
unfoldable pub stored : memory.Db
unfolding memory
stored = jobs

abbrev pub sent : String
sent = "sent"

-- The options of an enqueue on the timeline of "acme".
abbrev pub mail_opts : EnqueueOpts
mail_opts = record {
  job_id = "n";
  tenant_id = "acme";
  partition = "";
  cost = pos 2;
  weight = pos 0;
  delay = pos 0;
}

-- A cache with one timeline, which is idle and seeded.
abbrev pub acme : TimelineKey
acme = record { tenant = "acme"; partition = "default" }

abbrev pub idle_entry : TenantVtime
idle_entry = record fresh { vtime = pos 2_000; seeded = true; ever_seeded = true }

abbrev pub one_timeline : VtimeCache
one_timeline = record {
  heap = idle_entry ∷ [];
  tenants = (acme, 0) ∷ [];
  lwm = ("default", pos 500) ∷ [];
}
