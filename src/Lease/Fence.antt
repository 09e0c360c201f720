-- ===== src/Lease/Fence.antt =====
-- The guard of the holder's operations, on every branch.
use mongoqueue.Base.{
  zero, suc, String, ◌≡◌, refl, ◌⊎◌, inl, inr, true, Result, ok, err, ap, sym, ◌∙◌, some, ◌==◌,
  arith, ℕ, ◌&&◌, eq_iff, subst, true≢false, suc,
}
use mongoqueue.Base.Int.{ℤ}
use mongoqueue.Errors.{Error, DriverError, lease_lost, driver, wrapped}
use mongoqueue.Bson.{Doc, set_pipeline}
use mongoqueue.Job.{Job, liveness_pending, text_field}
use mongoqueue.Mongo.Language.{Language}
use mongoqueue.Mongo.Collection.{Collection, Content, Same, Wrote, Updates, UpdateOutcome}
use mongoqueue.Claim.{ClaimedJob}
use mongoqueue.Lease.{fence_filter, fenced_update, matched}

-- A stored job is pending under the handle's claim id.
pub record IsHeld (h : ClaimedJob) (c : Content) (j : Job) : Type 0 where
  pub stored : c h.job_id ≡ some j
  pub fenced : j.claim_id ≡ h.claim_id
  pub is_pending : j.liveness ≡ liveness_pending

-- The held job is replaced by its new form.
abbrev pub Replaces : ClaimedJob → (Job → Job) → Content → Content → Type 0
Replaces h new c c' = (j : Job) × IsHeld h c j × Wrote h.job_id (new j) c c'

abbrev pub FencedOutcome :
    ClaimedJob → (Job → Job) → Content → Content → Result Error (Unit {0}) → Type 0
FencedOutcome h new c c' (ok _) = Replaces h new c c'
FencedOutcome h new c c' (err lease_lost) = ((j : Job) → ¬ IsHeld h c j) × Same c c'
FencedOutcome h new c c' (err (wrapped _ (driver _))) = Same c c' ⊎ Replaces h new c c'
FencedOutcome h new c c' (err _) = ⊥

module _ (l : Language) where
  fence_filter-eq :
      (h : ClaimedJob) (now : ℤ) (j : Job)
      → l.selects (fence_filter h) now j ≡ (
          (j.id == h.job_id)
          && ((j.claim_id == h.claim_id) && ((j.liveness == liveness_pending) && true)))
  unfolding text_field
  fence_filter-eq h now j =
      l.selects_text "_id" h.job_id j.id _ now j refl
      ∙ ap (λ b. (j.id == h.job_id) && b)
          (l.selects_text "claim_id" h.claim_id j.claim_id _ now j refl
            ∙ ap (λ b. (j.claim_id == h.claim_id) && b)
                (l.selects_text "liveness" liveness_pending j.liveness _ now j refl
                  ∙ ap (λ b. (j.liveness == liveness_pending) && b) (l.selects_empty now j)))

  pub selected-IsHeld :
      {h : ClaimedJob} {now : ℤ} {c : Content} (j : Job)
      → c j.id ≡ some j
      → l.selects (fence_filter h) now j ≡ true
      → (j.id ≡ h.job_id) × IsHeld h c j
  selected-IsHeld {h} {now} {c} j e s = (
    same_id,
    record {
      stored = subst (λ x. c x ≡ some j) same_id e;
      fenced =
          ground
            (arith, fence_filter-eq h now j, eq_iff j.id h.job_id, eq_iff j.claim_id h.claim_id);
      is_pending = ground (
        arith,
        fence_filter-eq h now j,
        eq_iff j.id h.job_id,
        eq_iff j.claim_id h.claim_id,
        eq_iff j.liveness liveness_pending,
      );
    },
  )
    where
      same_id : j.id ≡ h.job_id
      same_id = ground (arith, fence_filter-eq h now j, eq_iff j.id h.job_id)

  pub IsHeld-selected :
      {h : ClaimedJob} {c : Content} (now : ℤ) (j : Job)
      → j.id ≡ h.job_id
      → IsHeld h c j
      → l.selects (fence_filter h) now j ≡ true
  IsHeld-selected {h} now j e v =
      fence_filter-eq h now j
      ∙ ground (
        arith,
        eq_iff j.id h.job_id,
        eq_iff j.claim_id h.claim_id,
        eq_iff j.liveness liveness_pending,
      )

module _ {l : Language} (c : Collection l) (h : ClaimedJob) (set : Doc) (new : Job → Job) (now : ℤ)
    (means : (j : Job) → l.updated (set_pipeline set) now j ≡ new j) where
  Updates-Replaces :
      {a b : Content} → Updates l (fence_filter h) (set_pipeline set) now a b → Replaces h new a b
  Updates-Replaces {a} {b} (j, m, w) =
      let (e, v) = selected-IsHeld l j m.stored m.selected in
      (j, v, subst (λ x. Wrote x (new j) a b) e (subst (λ x. Wrote j.id x a b) (means j) w))

  -- With a set stage that means `new`, a fenced update replaces the held job by its new form if the
  -- handle's claim id is still on a pending job, and otherwise returns ErrLeaseLost.
  pub fenced_update-FencedOutcome :
      (op : String) (db : c.Db)
      → FencedOutcome h new
          (c.content db)
          (c.content (fenced_update c h op set now db).1)
          (fenced_update c h op set now db).0
  unfolding fenced_update matched
  fenced_update-FencedOutcome op db =
      go (c.update_one (fence_filter h) (set_pipeline set) now db).0
        (c.update_one_outcome (fence_filter h) (set_pipeline set) now db)
    where
      go :
          (r : Result DriverError ℕ)
          → UpdateOutcome l
              (fence_filter h)
              (set_pipeline set)
              now
              (c.content db)
              (c.content (c.update_one (fence_filter h) (set_pipeline set) now db).1)
              r
          → FencedOutcome h new
              (c.content db)
              (c.content (c.update_one (fence_filter h) (set_pipeline set) now db).1)
              (matched op r)
      go (ok zero) (n, s) = (
        λ j v.
            true≢false
              (sym (IsHeld-selected l now j (c.id_stored db _ j v.stored) v) ∙ n _ j v.stored),
        s,
      )
      go (ok (suc zero)) u = Updates-Replaces u
      go (ok (suc (suc n))) u = absurd u
      go (err e) (inl s) = inl s
      go (err e) (inr u) = inr (Updates-Replaces u)
