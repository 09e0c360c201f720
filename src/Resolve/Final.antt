-- ===== src/Resolve/Final.antt =====
-- What a successful terminal write finds and leaves, and the next claim (resolve.go, claim.go).
use mongoqueue.Base.{
  String, refl, some, inl, inr, ok, err, ◌≡◌, ◌≢◌, ◌∙◌, eq_refl, sym, ◌⊎◌, ap, subst,
}
use mongoqueue.Base.Int.{ℤ}
use mongoqueue.Job.{
  Job, liveness_pending, liveness_resolved, resolution_canceled, resolved_ne_pending,
}
use mongoqueue.Mongo.Language.{Language}
use mongoqueue.Mongo.Collection.{Collection, Wrote}
use mongoqueue.Claim.{ClaimedJob, claim}
use mongoqueue.Claim.Exclusive.{ClaimedFrom, claim-ClaimedFrom}
use mongoqueue.Lease.Fence.{FencedOutcome, Replaces}
use mongoqueue.Opts.{or_default}
use mongoqueue.Resolve.{complete, cancel}
use mongoqueue.Errors.{Error, empty_resolution}
use mongoqueue.Resolve.Cancel.{CancelOutcome, cancel-CancelOutcome}
use mongoqueue.Resolve.Terminal.{complete-FencedOutcome, resolved}

module _ {l : Language} (c : Collection l) where
  -- What a successful terminal write found and left.
  pub record Resolves (id : String) (db db' : c.Db) : Type 0 where
    pub old : Job
    pub new : Job
    pub was_stored : c.content db id ≡ some old
    pub was_pending : old.liveness ≡ liveness_pending
    pub now_stored : c.content db' id ≡ some new
    pub now_resolved : new.liveness ≡ liveness_resolved

  Wrote-self :
      (id : String) (j : Job) (db db' : c.Db)
      → Wrote id j (c.content db) (c.content db')
      → c.content db' id ≡ some j
  Wrote-self id j db db' w = w id ∙ rw (eq_refl id) refl

  pub complete-Resolves :
      (h : ClaimedJob) (r : String) (now : ℤ) (db : c.Db)
      → (complete c h r now db).0 ≡ ok tt
      → Resolves h.job_id db (complete c h r now db).1
  complete-Resolves h r now db e = go (complete-FencedOutcome c h r now db)
    where
      done : c.Db
      done = (complete c h r now db).1

      refused : {x : Error} → err x ≡ ok tt → ⊥
      refused q = cc

      replaced :
          Replaces h (resolved r now) (c.content db) (c.content done) → Resolves h.job_id db done
      replaced (j, v, w) = record {
        old = j;
        new = resolved r now j;
        was_stored = v.stored;
        was_pending = v.is_pending;
        now_stored = Wrote-self h.job_id (resolved r now j) db done w;
        now_resolved = refl;
      }

      go :
          ((r ≡ "") × (complete c h r now db ≡ (err empty_resolution, db)))
            ⊎ ((r ≢ "")
                × FencedOutcome h
                    (resolved r now)
                    (c.content db)
                    (c.content done)
                    (complete c h r now db).0)
          → Resolves h.job_id db done
      go (inl (p, q)) = absurd (refused (sym (ap (λ x. x.0) q) ∙ e))
      go (inr (p, o)) =
          replaced (subst (FencedOutcome h (resolved r now) (c.content db) (c.content done)) e o)

  pub cancel-Resolves :
      (job_id : String) (now : ℤ) (db : c.Db)
      → (cancel c job_id (λ d. d) now db).0 ≡ ok tt
      → Resolves job_id db (cancel c job_id (λ d. d) now db).1
  cancel-Resolves job_id now db e = go (
      subst (CancelOutcome c job_id (λ d. d) now db done) e
        (cancel-CancelOutcome c job_id (λ d. d) now db))
    where
      done : c.Db
      done = (cancel c job_id (λ d. d) now db).1

      go : CancelOutcome c job_id (λ d. d) now db done (ok tt) → Resolves job_id db done
      go (j, v, w) = record {
        old = j;
        new = resolved resolution_canceled now j;
        was_stored = v.stored;
        was_pending = v.is_pending;
        now_stored = Wrote-self job_id (resolved resolution_canceled now j) db done w;
        now_resolved = refl;
      }

  -- If a completion succeeds and the next claim on the same database succeeds too, with whatever
  -- claim id, partition, lease and server time, then the claim returns another job.
  pub complete_excludes_claim :
      (h : ClaimedJob) (r : String) (now : ℤ) (db : c.Db) (claim_id partition : String)
      (lease now' : ℤ) (k : ClaimedJob)
      → (complete c h r now db).0 ≡ ok tt
      → (claim c claim_id partition lease now' (complete c h r now db).1).0 ≡ ok k
      → k.job_id ≢ h.job_id
  complete_excludes_claim h r now db claim_id partition lease now' k done e same =
      resolved_ne_pending (
        sym w.now_resolved
        ∙ liveness_same (
            sym w.now_stored
            ∙ subst (λ x. c.content after x ≡ some from.source) same from.was_stored)
        ∙ from.visible.is_pending)
    where
      after : c.Db
      after = (complete c h r now db).1

      w : Resolves h.job_id db after
      w = complete-Resolves h r now db done

      from :
          ClaimedFrom c
            (or_default partition)
            claim_id
            lease
            now'
            (c.content after)
            (c.content (claim c claim_id partition lease now' after).1)
            k
      from = claim-ClaimedFrom c claim_id partition lease now' after k e

      liveness_same : {j k : Job} → some j ≡ some k → j.liveness ≡ k.liveness
      liveness_same q = cc
