-- ===== src/Life/Acts.antt =====
-- The operations that write to the collection, as values, and runs of them by any clients in any
-- order. What each caller finds in its own cache is an argument of its call.
use mongoqueue.Base.{String, List, [], ◌∷◌, none, some, true, ◌≡◌, ◌⊎◌}
use mongoqueue.Base.Int.{ℤ, pos}
use mongoqueue.Job.{Job}
use mongoqueue.Mongo.Language.{Language}
use mongoqueue.Mongo.Collection.{Collection}
use mongoqueue.Opts.{EnqueueOpts}
use mongoqueue.Cache.{VtimeCache}
use mongoqueue.Enqueue.{Payload, Reads, Enqueued, enqueue}
use mongoqueue.Claim.{ClaimedJob, claim}
use mongoqueue.Lease.{heartbeat, release}
use mongoqueue.Resolve.{complete, cancel}
use mongoqueue.Life.Abstract.{Cause, inserting, claiming, holding, canceling, collecting}
use mongoqueue.Ttl.{ttl_index}

module _ {l : Language} (c : Collection l) where
  -- One pass of the server's TTL monitor over the index of EnsureTTLIndex: each job stays as it is,
  -- or is deleted, which happens only to a job in the partial index.
  pub record Collector : Type 0 where
    pub pass : c.Db → c.Db
    pub fate :
        (db : c.Db) (id : String)
        → (c.content (pass db) id ≡ c.content db id)
          ⊎ ((j : Job) × (c.content db id ≡ some j)
              × (now : ℤ) × (l.selects (ttl_index (pos 0)).partial_filter now j ≡ true)
              × (c.content (pass db) id ≡ none))

  pub data Act : Type 0 where
    enqueues : Payload → List (VtimeCache → VtimeCache) → Reads c → EnqueueOpts → VtimeCache → Act
    claims : String → String → ℤ → ℤ → Act
    heartbeats : ClaimedJob → ℤ → ℤ → Act
    releases : ClaimedJob → ℤ → ℤ → Act
    completes : ClaimedJob → String → ℤ → Act
    cancels : String → ℤ → Act
    collects : Collector → Act

  unfoldable pub database : c.Db → Enqueued c → c.Db
  database db none = db
  database db (some (r, cache, db')) = db'

  unfoldable pub perform : Act → c.Db → c.Db
  unfolding database
  perform (enqueues p windows reads opts cache) db =
      database db (enqueue c p windows reads opts cache db)
  perform (claims claim_id partition lease now) db = (claim c claim_id partition lease now db).1
  perform (heartbeats h extend now) db = (heartbeat c h extend now db).1
  perform (releases h delay now) db = (release c h delay now db).1
  perform (completes h r now) db = (complete c h r now db).1
  perform (cancels job_id now) db = (cancel c job_id (λ d. d) now db).1
  perform (collects m) db = m.pass db

  unfoldable pub run : List Act → c.Db → c.Db
  run [] db = db
  run (a ∷ rest) db = run rest (perform a db)

  -- A condition on causes, at the cause that an operation has.
  abbrev pub Allowed : (Cause → Type 0) → Act → Type 0
  Allowed F (enqueues _ _ _ _ _) = F inserting
  Allowed F (claims _ _ _ now) = F (claiming now)
  Allowed F (heartbeats h _ _) = F (holding h.claim_id)
  Allowed F (releases h _ _) = F (holding h.claim_id)
  Allowed F (completes h _ _) = F (holding h.claim_id)
  Allowed F (cancels _ _) = F canceling
  Allowed F (collects _) = F collecting

  abbrev pub AllAllowed : (Cause → Type 0) → List Act → Type 0
  AllAllowed F [] = Unit {0}
  AllAllowed F (a ∷ rest) = Allowed F a × AllAllowed F rest
