-- ===== src/Claim/Order.antt =====
-- What the filter, the sort and the update of claim.go mean on a stored job.
use mongoqueue.Base.{
  String, ◌≡◌, ◌↔◌, refl, ap, ◌∙◌, Bool, true, ◌&&◌, ◌||◌, ◌==◌, text_lt, arith, eq_iff, false,
}
use mongoqueue.Base.Int.{ℤ, pos, ◌+ℤ◌, ◌≤ℤ◌, leb_ℤ, ltb_ℤ, eqb_ℤ}
use mongoqueue.Duration.{duration_millis}
use mongoqueue.Bson.{empty, set_pipeline, text}
use mongoqueue.Job.{Job, text_field, assign, liveness_pending}
use mongoqueue.Mongo.Language.{Language}
use mongoqueue.Claim.{claim_filter, claim_sort, claim_set}
use mongoqueue.Mongo.Steps.{assigned_step, eval_now_plus, eval_attempts_plus}

-- In the visible set of a partition at a server time.
pub record IsVisible (partition : String) (now : ℤ) (j : Job) : Type 0 where
  pub in_partition : j.partition ≡ partition
  pub is_pending : j.liveness ≡ liveness_pending
  pub is_due : j.visible_at ≤ℤ now

-- The dispatch order: lowest (vstamp, id) first.
abbrev pub before : Job → Job → Bool
before a b = ltb_ℤ a.vstamp b.vstamp || eqb_ℤ a.vstamp b.vstamp && text_lt a.id b.id

-- A job under a new claim.
abbrev pub leased : String → ℤ → ℤ → Job → Job
leased claim_id millis now j = record j {
  claim_id = claim_id;
  visible_at = now +ℤ millis;
  attempts = j.attempts +ℤ pos 1;
}

or_and_false : (b c : Bool) → (b || c && false) ≡ b
or_and_false b c = ground arith

module _ (l : Language) where
  claim_filter-eq :
      (p : String) (now : ℤ) (j : Job)
      → l.selects (claim_filter p) now j ≡ (
          (j.partition == p)
          && ((j.liveness == liveness_pending) && (leb_ℤ j.visible_at now && true)))
  unfolding text_field
  claim_filter-eq p now j =
      l.selects_text "partition" p j.partition _ now j refl
      ∙ ap (λ b. (j.partition == p) && b)
          (l.selects_text "liveness" liveness_pending j.liveness _ now j refl
            ∙ ap (λ b. (j.liveness == liveness_pending) && b)
                (l.selects_expr _ _ j.visible_at now empty now j (l.eval_visible_at now j)
                    (l.eval_now now j)
                  ∙ ap (λ b. leb_ℤ j.visible_at now && b) (l.selects_empty now j)))

  -- The claim filter selects the visible set.
  pub claim_filter-IsVisible :
      (p : String) (now : ℤ) (j : Job)
      → (l.selects (claim_filter p) now j ≡ true) ↔ IsVisible p now j
  claim_filter-IsVisible p now j = rw (claim_filter-eq p now j) (
    λ h. record {
      in_partition = ground (arith, eq_iff j.partition p);
      is_pending = ground (arith, eq_iff j.liveness liveness_pending);
      is_due = ground arith;
    },
    λ v. ground (arith, eq_iff j.partition p, eq_iff j.liveness liveness_pending),
  )

  pub claim_sort-before : (a b : Job) → l.precedes claim_sort a b ≡ before a b
  claim_sort-before a b =
      l.precedes_vstamp_up _ a b
      ∙ ap (λ x. ltb_ℤ a.vstamp b.vstamp || eqb_ℤ a.vstamp b.vstamp && x)
          (l.precedes_id empty a b
            ∙ ap (λ x. text_lt a.id b.id || (a.id == b.id) && x) (l.precedes_empty a b)
            ∙ or_and_false (text_lt a.id b.id) (a.id == b.id))

  pub claim_set-leased :
      (claim_id : String) (lease now : ℤ) (j : Job)
      → l.updated (set_pipeline (claim_set claim_id lease)) now j
        ≡ leased claim_id (duration_millis lease) now j
  unfolding assign
  claim_set-leased claim_id lease now j =
      l.updated_set _ now j
      ∙ assigned_step l "claim_id" _ now j j (l.eval_literal (text claim_id) now j) refl
      ∙ assigned_step l "visible_at" _ now j _ (eval_now_plus l (duration_millis lease) now j) refl
      ∙ assigned_step l "attempts" empty now j _ (eval_attempts_plus l (pos 1) now j) refl
      ∙ l.assigned_empty now j _
