-- ===== src/Fencing.antt =====
-- What a holder can do to a job that is no longer its own (claim.go, lease.go, resolve.go).
use mongoqueue.Base.{
  String, ◌≡◌, refl, none, some, inl, inr, ok, err, Result, ◌≢◌, subst, ◌⊎◌, sym, ◌∙◌, eq_refl,
  Option, ap,
}
use mongoqueue.Base.Int.{ℤ}
use mongoqueue.Errors.{Error, lease_lost, wrapped, driver, empty_resolution}
use mongoqueue.Job.{resolved_ne_pending, Job, liveness_pending}
use mongoqueue.Mongo.Language.{Language}
use mongoqueue.Mongo.Collection.{Collection, Content, Same, Wrote}
use mongoqueue.Claim.{ClaimedJob, claim}
use mongoqueue.Claim.Dispatch.{ClaimOutcome, claim-ClaimOutcome}
use mongoqueue.Lease.{heartbeat, release}
use mongoqueue.Lease.Fence.{IsHeld, FencedOutcome, Replaces}
use mongoqueue.Lease.Holder.{heartbeat-FencedOutcome, release-FencedOutcome, extended, released}
use mongoqueue.Resolve.{complete, cancel}
use mongoqueue.Resolve.Terminal.{complete-FencedOutcome, resolved}
use mongoqueue.Resolve.Cancel.{CancelOutcome, cancel-CancelOutcome}
use mongoqueue.Duration.{duration_millis}
use mongoqueue.Claim.Order.{leased}
use mongoqueue.Opts.{or_default}

abbrev pub NotHeld : ClaimedJob → Content → Type 0
NotHeld h c = (j : Job) → ¬ IsHeld h c j

-- A fenced update of a job that is not held fails and changes nothing.
fenced_out :
    (h : ClaimedJob) (new : Job → Job) (c c' : Content) (r : Result Error (Unit {0}))
    → NotHeld h c
    → FencedOutcome h new c c' r
    → (r ≢ ok tt) × Same c c'
fenced_out h new c c' (ok _) n (j, v, w) = absurd (n j v)
fenced_out h new c c' (err lease_lost) n o = (λ e. cc, o.1)
fenced_out h new c c' (err (wrapped s (driver e))) n (inl x) = (λ e. cc, x)
fenced_out h new c c' (err (wrapped s (driver e))) n (inr (j, v, w)) = absurd (n j v)
fenced_out h new c c' (err _) n o = absurd o

-- The job under the handle's id, after it was written.
Wrote-NotHeld :
    (h : ClaimedJob) (k : Job) (c c' : Content)
    → Wrote h.job_id k c c'
    → ((k.claim_id ≢ h.claim_id) ⊎ (k.liveness ≢ liveness_pending))
    → NotHeld h c'
Wrote-NotHeld h k c c' w d j v = go d
  where
    same : some k ≡ some j
    same = sym (w h.job_id ∙ rw (eq_refl h.job_id) refl) ∙ v.stored

    of : (Job → String) → Option Job → String
    of f none = ""
    of f (some x) = f x

    go : ((k.claim_id ≢ h.claim_id) ⊎ (k.liveness ≢ liveness_pending)) → ⊥
    go (inl n) = n (ap (of (λ (x : Job). x.claim_id)) same ∙ v.fenced)
    go (inr n) = n (ap (of (λ (x : Job). x.liveness)) same ∙ v.is_pending)

module _ {l : Language} (c : Collection l) (h : ClaimedJob) where
  abbrev pub NoEffect : c.Db → Result Error (Unit {0}) × c.Db → Type 0
  NoEffect db (r, db') = (r ≢ ok tt) × Same (c.content db) (c.content db')

  -- Whatever the holder tries, it fails and nothing changes.
  pub record FencedOut (db : c.Db) : Type 0 where
    pub heartbeats : (extend now : ℤ) → NoEffect db (heartbeat c h extend now db)
    pub releases : (delay now : ℤ) → NoEffect db (release c h delay now db)
    pub completes : (r : String) (now : ℤ) → NoEffect db (complete c h r now db)

  NotHeld-FencedOut : (db : c.Db) → NotHeld h (c.content db) → FencedOut db
  NotHeld-FencedOut db n = record {
    heartbeats = λ d now. go (extended d now) _ (heartbeat-FencedOutcome c h d now db);
    releases = λ d now. go (released d now) _ (release-FencedOutcome c h d now db);
    completes = λ r now. go (resolved r now) _ (complete-FencedOutcome c h r now db);
  }
    where
      go :
          {P Q : Type 0} {e : Error} (new : Job → Job) (r : Result Error (Unit {0}) × c.Db)
          → (P × (r ≡ (err e, db))) ⊎ (Q × FencedOutcome h new (c.content db) (c.content r.1) r.0)
          → NoEffect db r
      go new r (inl (p, e)) = subst (NoEffect db) (sym e) (λ q. cc, λ id. refl)
      go new r (inr (q, o)) = fenced_out h new _ _ r.0 n o

  -- Once another claim, with another claim id, has leased the job of a handle, every heartbeat,
  -- release and completion of that handle fails and changes nothing.
  pub claim-FencedOut :
      (claim_id partition : String) (lease now : ℤ) (db : c.Db) (k : ClaimedJob)
      → (claim c claim_id partition lease now db).0 ≡ ok k
      → k.job_id ≡ h.job_id
      → claim_id ≢ h.claim_id
      → FencedOut (claim c claim_id partition lease now db).1
  claim-FencedOut claim_id partition lease now db k e same n = NotHeld-FencedOut _ (
      go (
        subst
          (ClaimOutcome (or_default partition) claim_id lease now (c.content db)
            (c.content (claim c claim_id partition lease now db).1))
          e (claim-ClaimOutcome c claim_id partition lease now db)))
    where
      go :
          ClaimOutcome
            (or_default partition)
            claim_id
            lease
            now
            (c.content db)
            (c.content (claim c claim_id partition lease now db).1)
            (ok k)
          → NotHeld h (c.content (claim c claim_id partition lease now db).1)
      go (p, (j, w, i)) =
          Wrote-NotHeld h (leased claim_id (duration_millis lease) now j) (c.content db)
            (c.content (claim c claim_id partition lease now db).1)
            (subst
              (λ x.
                Wrote x (leased claim_id (duration_millis lease) now j) (c.content db)
                  (c.content (claim c claim_id partition lease now db).1))
              (sym i.job_id ∙ same) w.written)
            (inl n)

  -- Once a job was completed, every heartbeat, release and completion under its id, that of the
  -- handle that completed it included, fails and changes nothing.
  pub complete-FencedOut :
      (k : ClaimedJob) (r : String) (now : ℤ) (db : c.Db)
      → (complete c k r now db).0 ≡ ok tt
      → k.job_id ≡ h.job_id
      → FencedOut (complete c k r now db).1
  complete-FencedOut k r now db e same =
      NotHeld-FencedOut _ (go (complete-FencedOutcome c k r now db))
    where
      refused : {x : Error} → err x ≡ ok tt → ⊥
      refused q = cc

      replaced :
          Replaces k (resolved r now) (c.content db) (c.content (complete c k r now db).1)
          → NotHeld h (c.content (complete c k r now db).1)
      replaced (j, v, w) =
          Wrote-NotHeld h (resolved r now j) (c.content db) (c.content (complete c k r now db).1)
            (subst
              (λ x. Wrote x (resolved r now j) (c.content db) (c.content (complete c k r now db).1))
              same w)
            (inr resolved_ne_pending)

      go :
          ((r ≡ "") × (complete c k r now db ≡ (err empty_resolution, db)))
            ⊎ ((r ≢ "")
                × FencedOutcome k
                    (resolved r now)
                    (c.content db)
                    (c.content (complete c k r now db).1)
                    (complete c k r now db).0)
          → NotHeld h (c.content (complete c k r now db).1)
      go (inl (p, q)) = absurd (refused (sym (ap (λ x. x.0) q) ∙ e))
      go (inr (p, o)) = replaced (
          subst
            (FencedOutcome k (resolved r now) (c.content db) (c.content (complete c k r now db).1))
            e o)

  -- Once a job was canceled, every heartbeat, release and completion under its id fails and changes
  -- nothing.
  pub cancel-FencedOut :
      (between : c.Db → c.Db) (now : ℤ) (db : c.Db)
      → (cancel c h.job_id between now db).0 ≡ ok tt
      → FencedOut (cancel c h.job_id between now db).1
  cancel-FencedOut between now db e = NotHeld-FencedOut _ (
      go (
        subst (CancelOutcome c h.job_id between now db (cancel c h.job_id between now db).1) e
          (cancel-CancelOutcome c h.job_id between now db)))
    where
      go :
          CancelOutcome c h.job_id between now db (cancel c h.job_id between now db).1 (ok tt)
          → NotHeld h (c.content (cancel c h.job_id between now db).1)
      go (j, v, w) = Wrote-NotHeld h _ _ _ w (inr resolved_ne_pending)
