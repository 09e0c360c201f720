-- ===== src/Frontier/Filters.antt =====
-- What the filters and sorts of the reads of queue.go mean on a stored job.
use Prim.Native.String.compare
use package.text.Mathlib.Text.{is_lt}
use mongoqueue.Base.{
  String, ◌≡◌, ◌≢◌, refl, ◌∙◌, true, false, text_lt, some, ◌↔◌, arith, ◌==◌, true≢false, ◌&&◌, sym,
  ap, eq_iff,
}
use mongoqueue.Base.Int.{ℤ, pos, ◌≤ℤ◌, negsuc}
use mongoqueue.Job.{Job, liveness_pending, text_field}
use mongoqueue.Mongo.Language.{Language}
use mongoqueue.Mongo.Collection.{Content}
use mongoqueue.Frontier.{vstamp_sort, seed_filter, pending_filter, clock_filter}
use mongoqueue.Bson.{empty}

pub record OnTimeline (tenant partition : String) (j : Job) : Type 0 where
  pub of_tenant : j.tenant_id ≡ tenant
  pub in_partition : j.partition ≡ partition
  pub is_pending : j.liveness ≡ liveness_pending

pub record IsFenced (partition : String) (j : Job) : Type 0 where
  pub in_partition : j.partition ≡ partition
  pub has_claim : j.claim_id ≢ ""

pub record IsPending (partition : String) (j : Job) : Type 0 where
  pub in_partition : j.partition ≡ partition
  pub is_pending : j.liveness ≡ liveness_pending

abbrev pub NoneSuch : (Job → Type 0) → Content → Type 0
NoneSuch P c = (id : String) (j : Job) → c id ≡ some j → ¬ P j

-- The largest stamp among the stored jobs that satisfy `P`.
pub record IsTop (P : Job → Type 0) (c : Content) (v : ℤ) : Type 0 where
  pub top : Job
  pub stored : c top.id ≡ some top
  pub satisfies : P top
  pub stamp : top.vstamp ≡ v
  pub largest : (id : String) (k : Job) → c id ≡ some k → P k → k.vstamp ≤ℤ v

-- The smallest.
pub record IsBottom (P : Job → Type 0) (c : Content) (v : ℤ) : Type 0 where
  pub bottom : Job
  pub stored : c bottom.id ≡ some bottom
  pub satisfies : P bottom
  pub stamp : bottom.vstamp ≡ v
  pub smallest : (id : String) (k : Job) → c id ≡ some k → P k → v ≤ℤ k.vstamp

module _ (l : Language) where
  pub down-le : (k j : Job) → l.precedes (vstamp_sort (negsuc 0)) k j ≡ false → k.vstamp ≤ℤ j.vstamp
  down-le k j e = ground (arith, l.precedes_vstamp_down empty k j, l.precedes_empty k j)

  pub up-le : (k j : Job) → l.precedes (vstamp_sort (pos 1)) k j ≡ false → j.vstamp ≤ℤ k.vstamp
  up-le k j e = ground (arith, l.precedes_vstamp_up empty k j, l.precedes_empty k j)

  pub seed_filter-OnTimeline :
      (t p : String) (now : ℤ) (j : Job)
      → (l.selects (seed_filter t p) now j ≡ true) ↔ OnTimeline t p j
  unfolding text_field
  seed_filter-OnTimeline t p now j = rw selected (
    λ h. record {
      of_tenant = ground (arith, eq_iff j.tenant_id t);
      in_partition = ground (arith, eq_iff j.tenant_id t, eq_iff j.partition p);
      is_pending =
          ground
            (arith, eq_iff j.tenant_id t, eq_iff j.partition p, eq_iff j.liveness liveness_pending);
    },
    λ v.
        ground
          (arith, eq_iff j.tenant_id t, eq_iff j.partition p, eq_iff j.liveness liveness_pending),
  )
    where
      selected : l.selects (seed_filter t p) now j ≡ (
          (j.tenant_id == t) && ((j.partition == p) && ((j.liveness == liveness_pending) && true)))
      selected =
          l.selects_text "tenant" t j.tenant_id _ now j refl
          ∙ ap (λ b. (j.tenant_id == t) && b)
              (l.selects_text "partition" p j.partition _ now j refl
                ∙ ap (λ b. (j.partition == p) && b)
                    (l.selects_text "liveness" liveness_pending j.liveness _ now j refl
                      ∙ ap (λ b. (j.liveness == liveness_pending) && b) (l.selects_empty now j)))

  pub pending_filter-IsPending :
      (p : String) (now : ℤ) (j : Job) → (l.selects (pending_filter p) now j ≡ true) ↔ IsPending p j
  unfolding text_field
  pending_filter-IsPending p now j = rw selected (
    λ h. record {
      in_partition = ground (arith, eq_iff j.partition p);
      is_pending = ground (arith, eq_iff j.partition p, eq_iff j.liveness liveness_pending);
    },
    λ v. ground (arith, eq_iff j.partition p, eq_iff j.liveness liveness_pending),
  )
    where
      selected :
          l.selects (pending_filter p) now j
          ≡ ((j.partition == p) && ((j.liveness == liveness_pending) && true))
      selected =
          l.selects_text "partition" p j.partition _ now j refl
          ∙ ap (λ b. (j.partition == p) && b)
              (l.selects_text "liveness" liveness_pending j.liveness _ now j refl
                ∙ ap (λ b. (j.liveness == liveness_pending) && b) (l.selects_empty now j))

  -- No text comes after "" but those that differ from it.
  pub empty_lt : (s : String) → (text_lt "" s ≡ true) ↔ (s ≢ "")
  empty_lt String.[] = (λ e. cc, λ h. absurd (h refl))
  empty_lt (String.◌∷◌ c s) =
      (λ e p. true≢false (sym e ∙ ap (text_lt "") p), λ h. ap is_lt (compare.nil-cons c s))

  pub clock_filter-IsFenced :
      (p : String) (now : ℤ) (j : Job) → (l.selects (clock_filter p) now j ≡ true) ↔ IsFenced p j
  unfolding text_field
  clock_filter-IsFenced p now j = rw selected (
    λ h. record {
      in_partition = ground (arith, eq_iff j.partition p);
      has_claim = (empty_lt j.claim_id).0 (ground arith);
    },
    λ v. ground (arith, eq_iff j.partition p, (empty_lt j.claim_id).1 v.has_claim),
  )
    where
      selected :
          l.selects (clock_filter p) now j ≡ ((j.partition == p) && (text_lt "" j.claim_id && true))
      selected =
          l.selects_text "partition" p j.partition _ now j refl
          ∙ ap (λ b. (j.partition == p) && b)
              (l.selects_gt "claim_id" "" j.claim_id _ now j refl
                ∙ ap (λ b. text_lt "" j.claim_id && b) (l.selects_empty now j))
