-- ===== src/Life/Writes.antt =====
-- The writes of the operations, as moves of the lifecycle.
use mongoqueue.Base.{
  String, refl, some, inl, inr, ok, err, subst, Bool-cases, Result, sym, ◌==◌, eq_iff, ◌∙◌, eq_refl,
  none, ◌≡◌, Option,
}
use mongoqueue.Base.Int.{ℤ, ◌+ℤ◌}
use mongoqueue.Job.{Job}
use mongoqueue.Mongo.Collection.{Content, Same, Wrote, InsertOutcome}
use mongoqueue.Errors.{
  Error, DriverError, no_documents, duplicate_key, other, lease_lost, invalid_lease, no_job,
  wrapped, driver,
}
use mongoqueue.Life.Abstract.{
  IsFresh, Cause, Change, Moves, stay, appear, change, claim, cancel, inserting, claiming, holding,
  canceling,
}
use mongoqueue.Enqueue.{Payload, new_job}
use mongoqueue.Claim.{ClaimedJob}
use mongoqueue.Claim.Dispatch.{Leases, ClaimOutcome}
use mongoqueue.Resolve.Terminal.{Cancels}
use mongoqueue.Opts.{NormalizedEnqueue}
use mongoqueue.Lease.Fence.{Replaces, FencedOutcome}
use mongoqueue.Claim.Order.{leased}
use mongoqueue.Duration.{duration_millis}

-- The records under every _id move, for causes that `F` allows.
abbrev pub AllMove : (Cause → Type 0) → Content → Content → Type 0
AllMove F a b = (id : String) → Moves F (a id) (b id)

pub new_job-IsFresh : (p : Payload) (n : NormalizedEnqueue) (v : ℤ) → IsFresh (new_job p n v)
new_job-IsFresh p n v = record {
  is_pending = refl;
  unclaimed = refl;
  no_attempt = refl;
  unresolved = (refl, refl);
}

module _ (F : Cause → Type 0) where
  pub Same-AllMove : {a b : Content} → Same a b → AllMove F a b
  Same-AllMove {a} s id = subst (Moves F (a id)) (sym (s id)) stay

  -- A write under one _id.
  pub Wrote-AllMove :
      (a b : Content) (id : String) (s : Option Job) (j : Job)
      → a id ≡ s
      → Moves F s (some j)
      → Wrote id j a b
      → AllMove F a b
  Wrote-AllMove a b id s j e m w k = elim (Bool-cases (id == k)) [
    | inl q ↦
        subst (λ x. Moves F (a x) (b x)) ((eq_iff id k).0 q)
          (subst (Moves F (a id)) (sym (w id ∙ rw (eq_refl id) refl))
            (subst (λ x. Moves F x (some j)) (sym e) m))
    | inr q ↦ subst (Moves F (a k)) (sym (w k ∙ rw q refl)) stay
  ]

  pub insert-AllMove :
      (a b : Content) (p : Payload) (n : NormalizedEnqueue) (v : ℤ)
      (r : Result DriverError (Unit {0}))
      → F inserting
      → InsertOutcome (new_job p n v) a b r
      → AllMove F a b
  insert-AllMove a b p n v (ok _) f (e, w) =
      Wrote-AllMove _ _ n.job_id none _ e (appear (new_job p n v) f (new_job-IsFresh p n v)) w
  insert-AllMove a b p n v (err duplicate_key) f (e, s) = Same-AllMove s
  insert-AllMove a b p n v (err no_documents) f o = absurd o
  insert-AllMove a b p n v (err (other _)) f (inl s) = Same-AllMove s
  insert-AllMove a b p n v (err (other _)) f (inr (e, w)) =
      Wrote-AllMove _ _ n.job_id none _ e (appear (new_job p n v) f (new_job-IsFresh p n v)) w

  -- A held job changes.
  pub Replaces-AllMove :
      (a b : Content) (h : ClaimedJob) (new : Job → Job)
      → F (holding h.claim_id)
      → ((j : Job) → Change j (holding j.claim_id) (new j))
      → Replaces h new a b
      → AllMove F a b
  Replaces-AllMove a b h new f g (j, v, w) =
      Wrote-AllMove _ _ h.job_id (some j) (new j) v.stored
        (change (holding h.claim_id) f v.is_pending
          (subst (λ x. Change j (holding x) (new j)) v.fenced (g j)))
        w

  pub fenced-AllMove :
      (a b : Content) (h : ClaimedJob) (new : Job → Job) (r : Result Error (Unit {0}))
      → F (holding h.claim_id)
      → ((j : Job) → Change j (holding j.claim_id) (new j))
      → FencedOutcome h new a b r
      → AllMove F a b
  fenced-AllMove a b h new (ok _) f g o = Replaces-AllMove _ _ h new f g o
  fenced-AllMove a b h new (err lease_lost) f g o = Same-AllMove o.1
  fenced-AllMove a b h new (err (wrapped s (driver e))) f g (inl o) = Same-AllMove o
  fenced-AllMove a b h new (err (wrapped s (driver e))) f g (inr o) =
      Replaces-AllMove _ _ h new f g o
  fenced-AllMove a b h new (err _) f g o = absurd o

  pub Leases-AllMove :
      (a b : Content) (p claim_id : String) (lease now : ℤ) (j : Job)
      → F (claiming now)
      → Leases p claim_id lease now a b j
      → AllMove F a b
  Leases-AllMove a b p claim_id lease now j f w =
      Wrote-AllMove _ _ j.id (some j) (leased claim_id (duration_millis lease) now j) w.next.stored
        (change (claiming now) f w.next.visible.is_pending
          (claim claim_id now (now +ℤ duration_millis lease) w.next.visible.is_due))
        w.written

  pub claim-AllMove :
      (a b : Content) (p claim_id : String) (lease now : ℤ) (r : Result Error ClaimedJob)
      → F (claiming now)
      → ClaimOutcome p claim_id lease now a b r
      → AllMove F a b
  claim-AllMove a b p id lease now (ok h) f (z, (j, w, _)) = Leases-AllMove _ _ p id lease now j f w
  claim-AllMove a b p id lease now (err invalid_lease) f (z, s) = Same-AllMove s
  claim-AllMove a b p id lease now (err no_job) f (z, n, s) = Same-AllMove s
  claim-AllMove a b p id lease now (err (wrapped _ (driver _))) f (z, inl s) = Same-AllMove s
  claim-AllMove a b p id lease now (err (wrapped _ (driver _))) f (z, inr (j, w)) =
      Leases-AllMove _ _ p id lease now j f w
  claim-AllMove a b p id lease now (err _) f o = absurd o

  pub Cancels-AllMove :
      (a b : Content) (job_id : String) (now : ℤ)
      → F canceling
      → Cancels job_id now a b
      → AllMove F a b
  Cancels-AllMove a b job_id now f (j, v, w) =
      Wrote-AllMove _ _ job_id (some j) _ v.stored (change canceling f v.is_pending (cancel now)) w
