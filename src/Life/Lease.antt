-- ===== src/Life/Lease.antt =====
-- The lease of one job, over a run of operations.
use mongoqueue.Base.{String, List, refl, some, inl, inr, ok, ◌≡◌, ◌≢◌, arith, sym, subst, ◌∙◌, ◌⊎◌}
use mongoqueue.Base.Int.{ℤ, ◌+ℤ◌, ◌<ℤ◌, ◌≤ℤ◌}
use mongoqueue.Duration.{duration_millis}
use mongoqueue.Job.{Job, liveness_resolved, resolved_ne_pending}
use mongoqueue.Mongo.Language.{Language}
use mongoqueue.Mongo.Collection.{Collection}
use mongoqueue.Claim.{ClaimedJob, claim}
use mongoqueue.Claim.Exclusive.{ClaimedFrom, claim-ClaimedFrom}
use mongoqueue.Opts.{or_default}
use mongoqueue.Life.Moves.{Foreign, IsLeased, Moves-IsLeased}
use mongoqueue.Life.Acts.{Act, run, AllAllowed}
use mongoqueue.Life.History.{run_keeps}
use mongoqueue.Claim.Order.{leased}

module _ {l : Language} (c : Collection l) where
  -- If a claim succeeds, then until the end of its lease no claim returns the same job, whatever
  -- the others do in between: enqueues, claims at server times before that end, operations of
  -- handles with other claim ids, and cancels, in any number and order, but no pass of the TTL
  -- monitor.
  pub lease_exclusive :
      (acts : List (Act c)) (id id' partition partition' : String) (lease lease' now now' : ℤ)
      (db : c.Db) (k k' : ClaimedJob)
      → (claim c id partition lease now db).0 ≡ ok k
      → AllAllowed c (Foreign id (now +ℤ duration_millis lease)) acts
      → now' <ℤ (now +ℤ duration_millis lease)
      → (claim c id' partition' lease' now' (run c acts (claim c id partition lease now db).1)).0
        ≡ ok k'
      → k'.job_id ≢ k.job_id
  lease_exclusive acts id id' partition partition' lease lease' now now' db k k' e foreign early e'
        same =
      go kept.2
    where
      after : c.Db
      after = (claim c id partition lease now db).1

      mid : c.Db
      mid = run c acts after

      until : ℤ
      until = now +ℤ duration_millis lease

      first : ClaimedFrom c (or_default partition) id lease now (c.content db) (c.content after) k
      first = claim-ClaimedFrom c id partition lease now db k e

      second :
          ClaimedFrom c
            (or_default partition')
            id'
            lease'
            now'
            (c.content mid)
            (c.content (claim c id' partition' lease' now' mid).1)
            k'
      second = claim-ClaimedFrom c id' partition' lease' now' mid k' e'

      kept : IsLeased id until (c.content mid k.job_id)
      kept =
          run_keeps c (Foreign id until) (IsLeased id until) (λ s t. Moves-IsLeased id until) acts
            after k.job_id foreign
            (
              leased id (duration_millis lease) now first.source,
              first.leased_after,
              inr (refl, omega arith),
            )

      found : some second.source ≡ some kept.0
      found =
          sym (subst (λ x. c.content mid x ≡ some second.source) same second.was_stored) ∙ kept.1

      same_fields :
          {i j : Job} → some i ≡ some j → (i.liveness ≡ j.liveness) × (i.visible_at ≡ j.visible_at)
      same_fields q = (cc, cc)

      apart : (x y : ℤ) → x ≡ y → x ≤ℤ now' → now' <ℤ until → until ≤ℤ y → ⊥
      apart x y q p r s = ground arith

      go :
          (kept.0.liveness ≡ liveness_resolved)
            ⊎ ((kept.0.claim_id ≡ id) × (until ≤ℤ kept.0.visible_at))
          → ⊥
      go (inl r) =
          resolved_ne_pending (sym r ∙ sym (same_fields found).0 ∙ second.visible.is_pending)
      go (inr (m, b)) = apart _ _ (same_fields found).1 second.visible.is_due early b
