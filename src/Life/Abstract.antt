-- ===== src/Life/Abstract.antt =====
-- The lifecycle of the record under one _id, as a transition system of its own.
use mongoqueue.Base.{String, refl, none, some, inr, ◌≡◌, Option, arith, ◌⊎◌, inl, ◌∙◌, ap, sym}
use mongoqueue.Base.Int.{ℤ, pos, ◌+ℤ◌, ◌≤ℤ◌}
use mongoqueue.Job.{resolution_canceled, Job, liveness_pending, liveness_resolved}

-- A job as it is enqueued: pending, never claimed, never resolved.
pub record IsFresh (j : Job) : Type 0 where
  pub is_pending : j.liveness ≡ liveness_pending
  pub unclaimed : j.claim_id ≡ ""
  pub no_attempt : j.attempts ≡ pos 0
  pub unresolved : (j.resolution ≡ "") × (j.resolved_at ≡ none)

-- The fields that no operation changes after the insert.
pub record SameEnvelope (j k : Job) : Type 0 where
  pub same_id : k.id ≡ j.id
  pub same_tenant : k.tenant_id ≡ j.tenant_id
  pub same_partition : k.partition ≡ j.partition
  pub same_cost : k.cost ≡ j.cost
  pub same_vstamp : k.vstamp ≡ j.vstamp
  pub same_node : k.stamped_by ≡ j.stamped_by
  pub same_content : (k.kind ≡ j.kind) × (k.body ≡ j.body)

-- Why a record changes: an insert, a claim at a server time, the holder of a claim id, a cancel, or
-- the collection of resolved jobs.
pub data Cause : Type 0 where
  inserting : Cause
  claiming : ℤ → Cause
  holding : String → Cause
  canceling : Cause
  collecting : Cause

-- The changes of a pending job, by the fields that each touches.
pub data Change (j : Job) : Cause → Job → Type 0 where
  claim :
      (claim_id : String) (now until : ℤ)
      → j.visible_at ≤ℤ now
      → Change j
          (claiming now)
          (record j { claim_id = claim_id; visible_at = until; attempts = j.attempts +ℤ pos 1 })
  extend : (until : ℤ) → Change j (holding j.claim_id) (record j { visible_at = until })
  release :
      (until : ℤ) → Change j (holding j.claim_id) (record j { visible_at = until; claim_id = "" })
  complete :
      (r : String) (now : ℤ)
      → Change j
          (holding j.claim_id)
          (record j { liveness = liveness_resolved; resolution = r; resolved_at = some now })
  cancel :
      (now : ℤ)
      → Change j canceling (record j {
        liveness = liveness_resolved;
        resolution = resolution_canceled;
        resolved_at = some now;
      })

-- A fresh job appears, a pending job changes, a resolved job is collected, each for a cause that
-- `F` allows.
pub data Moves (F : Cause → Type 0) : Option Job → Option Job → Type 0 where
  stay : {s : Option Job} → Moves F s s
  appear : (j : Job) → F inserting → IsFresh j → Moves F none (some j)
  change :
      {j k : Job} (x : Cause)
      → F x
      → j.liveness ≡ liveness_pending
      → Change j x k
      → Moves F (some j) (some k)
  collect : {j : Job} → F collecting → j.liveness ≡ liveness_resolved → Moves F (some j) none

-- What a later form of a job keeps: its envelope, its attempts so far, and, once resolved, all.
pub record Later (j k : Job) : Type 0 where
  pub envelope : SameEnvelope j k
  pub attempts : j.attempts ≤ℤ k.attempts
  pub final : (j.liveness ≡ liveness_pending) ⊎ (k ≡ j)

-- The other fields may be anything.
SameEnvelope-update :
    (j : Job) (liveness resolution claim_id : String) (visible_at attempts : ℤ)
    (resolved_at : Option ℤ)
    → SameEnvelope j (record j {
      liveness = liveness;
      resolution = resolution;
      claim_id = claim_id;
      visible_at = visible_at;
      attempts = attempts;
      resolved_at = resolved_at;
    })
SameEnvelope-update j _ _ _ _ _ _ = record {
  same_id = refl;
  same_tenant = refl;
  same_partition = refl;
  same_cost = refl;
  same_vstamp = refl;
  same_node = refl;
  same_content = (refl, refl);
}

pub Later-refl : (j : Job) → Later j j
Later-refl j = record {
  envelope = SameEnvelope-update j _ _ _ _ _ _;
  attempts = omega arith;
  final = inr refl;
}

SameEnvelope-trans : {i j k : Job} → SameEnvelope i j → SameEnvelope j k → SameEnvelope i k
SameEnvelope-trans p q = record {
  same_id = q.same_id ∙ p.same_id;
  same_tenant = q.same_tenant ∙ p.same_tenant;
  same_partition = q.same_partition ∙ p.same_partition;
  same_cost = q.same_cost ∙ p.same_cost;
  same_vstamp = q.same_vstamp ∙ p.same_vstamp;
  same_node = q.same_node ∙ p.same_node;
  same_content = (q.same_content.0 ∙ p.same_content.0, q.same_content.1 ∙ p.same_content.1);
}

pub Later-trans : {i j k : Job} → Later i j → Later j k → Later i k
Later-trans {i} {j} {k} p q = record {
  envelope = SameEnvelope-trans p.envelope q.envelope;
  attempts = omega (arith, p.attempts, q.attempts);
  final = both p.final q.final;
}
  where
    both :
        (i.liveness ≡ liveness_pending) ⊎ (j ≡ i)
        → (j.liveness ≡ liveness_pending) ⊎ (k ≡ j)
        → (i.liveness ≡ liveness_pending) ⊎ (k ≡ i)
    both (inl x) y = inl x
    both (inr x) (inl y) = inl (ap (λ (z : Job). z.liveness) (sym x) ∙ y)
    both (inr x) (inr y) = inr (y ∙ x)

one_more : (a : ℤ) → a ≤ℤ (a +ℤ pos 1)
unfolding ◌+ℤ◌
one_more a = ground arith

pub Change-Later :
    {j k : Job} {x : Cause} → j.liveness ≡ liveness_pending → Change j x k → Later j k
Change-Later {j} e (claim id now until d) = record {
  envelope = SameEnvelope-update j _ _ _ _ _ _;
  attempts = one_more j.attempts;
  final = inl e;
}
Change-Later {j} e (extend until) = record {
  envelope = SameEnvelope-update j _ _ _ _ _ _;
  attempts = omega arith;
  final = inl e;
}
Change-Later {j} e (release until) = record {
  envelope = SameEnvelope-update j _ _ _ _ _ _;
  attempts = omega arith;
  final = inl e;
}
Change-Later {j} e (complete r now) = record {
  envelope = SameEnvelope-update j _ _ _ _ _ _;
  attempts = omega arith;
  final = inl e;
}
Change-Later {j} e (cancel now) = record {
  envelope = SameEnvelope-update j _ _ _ _ _ _;
  attempts = omega arith;
  final = inl e;
}
