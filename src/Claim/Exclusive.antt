-- ===== src/Claim/Exclusive.antt =====
-- Two claims in a row (claim.go).
use mongoqueue.Base.{
  String, ◌≡◌, refl, none, some, ok, subst, ◌≢◌, sym, arith, ◌∙◌, Option, eq_refl, ap,
}
use mongoqueue.Base.Int.{ℤ, ◌+ℤ◌, ◌<ℤ◌, ◌≤ℤ◌}
use mongoqueue.Duration.{duration_millis}
use mongoqueue.Job.{Job}
use mongoqueue.Mongo.Language.{Language}
use mongoqueue.Mongo.Collection.{Collection, Content}
use mongoqueue.Claim.{ClaimedJob, claim}
use mongoqueue.Claim.Order.{IsVisible, leased}
use mongoqueue.Claim.Dispatch.{ClaimOutcome, claim-ClaimOutcome}
use mongoqueue.Opts.{or_default}

module _ {l : Language} (c : Collection l) where
  -- The job of a successful claim was visible when it was claimed, and is stored as leased after.
  pub record ClaimedFrom (p claim_id : String) (lease now : ℤ) (before after : Content)
      (k : ClaimedJob) : Type 0 where
    pub source : Job
    pub was_stored : before k.job_id ≡ some source
    pub visible : IsVisible p now source
    pub leased_after : after k.job_id ≡ some (leased claim_id (duration_millis lease) now source)

  pub claim-ClaimedFrom :
      (claim_id partition : String) (lease now : ℤ) (db : c.Db) (k : ClaimedJob)
      → (claim c claim_id partition lease now db).0 ≡ ok k
      → ClaimedFrom
          (or_default partition)
          claim_id
          lease
          now
          (c.content db)
          (c.content (claim c claim_id partition lease now db).1)
          k
  claim-ClaimedFrom claim_id partition lease now db k e = go (
      subst (ClaimOutcome (or_default partition) claim_id lease now (c.content db) after) e
        (claim-ClaimOutcome c claim_id partition lease now db))
    where
      after : Content
      after = c.content (claim c claim_id partition lease now db).1

      go :
          ClaimOutcome (or_default partition) claim_id lease now (c.content db) after (ok k)
          → ClaimedFrom (or_default partition) claim_id lease now (c.content db) after k
      go (p, (j, w, i)) = record {
        source = j;
        was_stored = subst (λ x. c.content db x ≡ some j) (sym i.job_id) w.next.stored;
        visible = w.next.visible;
        leased_after =
            subst (λ x. after x ≡ some (leased claim_id (duration_millis lease) now j))
              (sym i.job_id) (w.written j.id ∙ rw (eq_refl j.id) refl);
      }

  -- If a claim succeeds and the next claim on the same database, at a server time before the end
  -- of the lease and with any claim id, partition and lease, succeeds too, then it returns another
  -- job.
  pub claim_exclusive :
      (id id' partition partition' : String) (lease lease' now now' : ℤ) (db : c.Db)
      (k k' : ClaimedJob)
      → (claim c id partition lease now db).0 ≡ ok k
      → now' <ℤ (now +ℤ duration_millis lease)
      → (claim c id' partition' lease' now' (claim c id partition lease now db).1).0 ≡ ok k'
      → k'.job_id ≢ k.job_id
  claim_exclusive id id' partition partition' lease lease' now now' db k k' e early e' same =
      apart (now +ℤ duration_millis lease) early
        (subst (λ x. x ≤ℤ now') (ap (due_of now') one_job) second.visible.is_due)
    where
      apart : (d : ℤ) → now' <ℤ d → d ≤ℤ now' → ⊥
      apart d p q = omega arith

      due_of : ℤ → Option Job → ℤ
      due_of t none = t
      due_of t (some j) = j.visible_at

      mid : c.Db
      mid = (claim c id partition lease now db).1

      first : ClaimedFrom (or_default partition) id lease now (c.content db) (c.content mid) k
      first = claim-ClaimedFrom id partition lease now db k e

      second :
          ClaimedFrom
            (or_default partition')
            id'
            lease'
            now'
            (c.content mid)
            (c.content (claim c id' partition' lease' now' mid).1)
            k'
      second = claim-ClaimedFrom id' partition' lease' now' mid k' e'

      one_job : some second.source ≡ some (leased id (duration_millis lease) now first.source)
      one_job =
          sym (subst (λ x. c.content mid x ≡ some second.source) same second.was_stored)
          ∙ first.leased_after
