-- ===== src/Resolve/Terminal.antt =====
-- The terminal writes and the read, on every branch.
use mongoqueue.Base.{
  String, ◌≡◌, ◌≢◌, refl, ◌⊎◌, inl, inr, ◌∙◌, some, err, ◌==◌, Bool-cases, ◌&&◌, eq_iff, true,
  true≢false, ap, sym,
}
use mongoqueue.Base.Int.{ℤ}
use mongoqueue.Errors.{empty_resolution}
use mongoqueue.Bson.{set_pipeline, text, empty}
use mongoqueue.Job.{
  Job, assign, liveness_pending, liveness_resolved, resolution_canceled, text_field,
}
use mongoqueue.Mongo.Language.{Language}
use mongoqueue.Mongo.Collection.{Collection, Content, Wrote}
use mongoqueue.Claim.{ClaimedJob}
use mongoqueue.Lease.Fence.{FencedOutcome, fenced_update-FencedOutcome}
use mongoqueue.Resolve.{complete, resolve_set, cancel_filter, id_filter}
use mongoqueue.Mongo.Steps.{assigned_step}

abbrev pub resolved : String → ℤ → Job → Job
resolved r now j = record j { liveness = liveness_resolved; resolution = r; resolved_at = some now }

pub record IsPendingAt (job_id : String) (c : Content) (j : Job) : Type 0 where
  pub stored : c job_id ≡ some j
  pub is_pending : j.liveness ≡ liveness_pending

abbrev pub Cancels : String → ℤ → Content → Content → Type 0
Cancels job_id now c c' =
    (j : Job) × IsPendingAt job_id c j × Wrote job_id (resolved resolution_canceled now j) c c'

abbrev pub NotPending : String → Content → Type 0
NotPending job_id c = (j : Job) → ¬ IsPendingAt job_id c j

module _ (l : Language) where
  -- Whatever text a resolution is, a "$" at its front included, it is stored as it stands.
  pub resolve_set-resolved :
      (r : String) (now : ℤ) (j : Job)
      → l.updated (set_pipeline (resolve_set r)) now j ≡ resolved r now j
  unfolding assign
  resolve_set-resolved r now j =
      l.updated_set _ now j
      ∙ assigned_step l "liveness" _ now j j (l.eval_text liveness_resolved now j refl) refl
      ∙ assigned_step l "resolution" _ now j _ (l.eval_literal (text r) now j) refl
      ∙ assigned_step l "resolved_at" empty now j _ (l.eval_now now j) refl
      ∙ l.assigned_empty now j _

  pub cancel_filter-eq :
      (job_id : String) (now : ℤ) (j : Job)
      → l.selects (cancel_filter job_id) now j
        ≡ ((j.id == job_id) && ((j.liveness == liveness_pending) && true))
  unfolding text_field
  cancel_filter-eq job_id now j =
      l.selects_text "_id" job_id j.id _ now j refl
      ∙ ap (λ b. (j.id == job_id) && b)
          (l.selects_text "liveness" liveness_pending j.liveness _ now j refl
            ∙ ap (λ b. (j.liveness == liveness_pending) && b) (l.selects_empty now j))

  pub id_filter-eq :
      (job_id : String) (now : ℤ) (j : Job)
      → l.selects (id_filter job_id) now j ≡ ((j.id == job_id) && true)
  unfolding text_field
  id_filter-eq job_id now j =
      l.selects_text "_id" job_id j.id empty now j refl
      ∙ ap (λ b. (j.id == job_id) && b) (l.selects_empty now j)

module _ {l : Language} (c : Collection l) where
  -- A completion with a resolution r that is not empty makes the held job resolved with r, at
  -- server time, and returns ErrLeaseLost if the job is not held; after a driver's error it did so
  -- or changed nothing; an empty r is refused and writes nothing.
  pub complete-FencedOutcome :
      (h : ClaimedJob) (r : String) (now : ℤ) (db : c.Db)
      → ((r ≡ "") × (complete c h r now db ≡ (err empty_resolution, db)))
        ⊎ ((r ≢ "")
            × FencedOutcome h
                (resolved r now)
                (c.content db)
                (c.content (complete c h r now db).1)
                (complete c h r now db).0)
  unfolding complete
  complete-FencedOutcome h r now db = elim (Bool-cases (r == "")) [
    | inl e ↦ inl ((eq_iff r "").0 e, rw e)
    | inr n ↦ inr (
      λ e. true≢false (sym ((eq_iff r "").1 e) ∙ n),
      rw n (fenced_update-FencedOutcome c h _ _ now (resolve_set-resolved l r now) "complete" db),
    )
  ]
