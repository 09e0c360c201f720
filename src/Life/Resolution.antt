-- ===== src/Life/Resolution.antt =====
-- The terminal writes of one job, over a run of operations.
use mongoqueue.Base.{◌≢◌, String, List, some, ok, Result, ◌≡◌, ◌∙◌, subst, sym}
use mongoqueue.Base.Int.{ℤ}
use mongoqueue.Errors.{Error}
use mongoqueue.Job.{Job, liveness_pending, resolved_ne_pending}
use mongoqueue.Mongo.Language.{Language}
use mongoqueue.Mongo.Collection.{Collection, Content}
use mongoqueue.Claim.{ClaimedJob, claim}
use mongoqueue.Claim.Exclusive.{ClaimedFrom, claim-ClaimedFrom}
use mongoqueue.Opts.{or_default}
use mongoqueue.Resolve.{complete, cancel}
use mongoqueue.Resolve.Final.{Resolves, complete-Resolves, cancel-Resolves}
use mongoqueue.Life.Moves.{NotCollecting, IsFinal, Moves-IsFinal}
use mongoqueue.Life.Acts.{Act, run, AllAllowed}
use mongoqueue.Life.History.{run_keeps}

-- A terminal write: by the holder of a claim, or by a canceler.
pub data Terminal : Type 0 where
  completion : ClaimedJob → String → ℤ → Terminal
  cancellation : String → ℤ → Terminal

abbrev pub target : Terminal → String
target (completion h r now) = h.job_id
target (cancellation job_id now) = job_id

module _ {l : Language} (c : Collection l) where
  abbrev pub write : Terminal → c.Db → Result Error (Unit {0}) × c.Db
  write (completion h r now) db = complete c h r now db
  write (cancellation job_id now) db = cancel c job_id (λ d. d) now db

  abbrev pub Succeeds : Terminal → c.Db → Type 0
  Succeeds w db = (write w db).0 ≡ ok tt

  write-Resolves :
      (w : Terminal) (db : c.Db) → Succeeds w db → Resolves c (target w) db (write w db).1
  write-Resolves (completion h r now) db e = complete-Resolves c h r now db e
  write-Resolves (cancellation job_id now) db e = cancel-Resolves c job_id now db e

  -- What the first terminal write resolved is what every such run leaves.
  write-IsFinal :
      (w : Terminal) (acts : List (Act c)) (db : c.Db)
      → Succeeds w db
      → AllAllowed c NotCollecting acts
      → (j : Job) × IsFinal j (c.content (run c acts (write w db).1) (target w))
  write-IsFinal w acts db first calm = (
    a.new,
    run_keeps c NotCollecting (IsFinal a.new) (λ s t. Moves-IsFinal) acts (write w db).1 (target w)
        calm (a.now_stored, a.now_resolved),
  )
    where
      a : Resolves c (target w) db (write w db).1
      a = write-Resolves w db first

  liveness_same : {j k : Job} → some j ≡ some k → j.liveness ≡ k.liveness
  liveness_same q = cc

  -- No stored form of a resolved job is pending.
  IsFinal-not_pending :
      (a : Content) (id : String) (i j : Job)
      → IsFinal i (a id)
      → a id ≡ some j
      → j.liveness ≢ liveness_pending
  IsFinal-not_pending a id i j f e q =
      resolved_ne_pending (sym f.1 ∙ liveness_same (sym f.0 ∙ e) ∙ q)

  -- Of the terminal writes on one id, completions by any holders and cancels, only the first
  -- succeeds: after it, and any run of operations in which the TTL monitor does not run, no other
  -- does.
  pub single_resolution :
      (w w' : Terminal) (acts : List (Act c)) (db : c.Db)
      → target w' ≡ target w
      → Succeeds w db
      → AllAllowed c NotCollecting acts
      → ¬ Succeeds w' (run c acts (write w db).1)
  single_resolution w w' acts db same first calm second =
      IsFinal-not_pending (c.content mid) (target w) final.0 b.old final.1
        (subst (λ x. c.content mid x ≡ some b.old) same b.was_stored) b.was_pending
    where
      mid : c.Db
      mid = run c acts (write w db).1

      final : (j : Job) × IsFinal j (c.content mid (target w))
      final = write-IsFinal w acts db first calm

      b : Resolves c (target w') mid (write w' mid).1
      b = write-Resolves w' mid second

  -- After a terminal write that succeeds, and any run of operations in which the TTL monitor does
  -- not run, a claim that succeeds, with whatever claim id, partition, lease and server time,
  -- returns another job.
  pub resolution_excludes_claim :
      (w : Terminal) (acts : List (Act c)) (db : c.Db) (claim_id partition : String) (lease now : ℤ)
      (k : ClaimedJob)
      → Succeeds w db
      → AllAllowed c NotCollecting acts
      → (claim c claim_id partition lease now (run c acts (write w db).1)).0 ≡ ok k
      → k.job_id ≢ target w
  resolution_excludes_claim w acts db claim_id partition lease now k first calm e same =
      IsFinal-not_pending (c.content mid) (target w) final.0 b.source final.1
        (subst (λ x. c.content mid x ≡ some b.source) same b.was_stored) b.visible.is_pending
    where
      mid : c.Db
      mid = run c acts (write w db).1

      final : (j : Job) × IsFinal j (c.content mid (target w))
      final = write-IsFinal w acts db first calm

      b :
          ClaimedFrom c
            (or_default partition)
            claim_id
            lease
            now
            (c.content mid)
            (c.content (claim c claim_id partition lease now mid).1)
            k
      b = claim-ClaimedFrom c claim_id partition lease now mid k e
