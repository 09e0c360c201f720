-- ===== src/Lease/Holder.antt =====
-- Heartbeat and release, on every branch.
use mongoqueue.Base.{◌≡◌, ◌⊎◌, inl, inr, ◌∙◌, err, Bool-cases, arith, refl}
use mongoqueue.Base.Int.{ℤ, pos, ◌+ℤ◌, ◌≤ℤ◌, ◌<ℤ◌, leb_ℤ, ltb_ℤ, leb_ℤ→le, ltb_ℤ→lt, ltb_ℤ→ge}
use mongoqueue.Errors.{invalid_lease, invalid_delay}
use mongoqueue.Duration.{duration_millis}
use mongoqueue.Bson.{empty, set_pipeline, text}
use mongoqueue.Job.{Job, assign}
use mongoqueue.Mongo.Language.{Language}
use mongoqueue.Mongo.Collection.{Collection}
use mongoqueue.Claim.{ClaimedJob}
use mongoqueue.Lease.{heartbeat, release, visible_after, release_set}
use mongoqueue.Lease.Fence.{FencedOutcome, fenced_update-FencedOutcome}
use mongoqueue.Mongo.Steps.{assigned_step, eval_now_plus}

abbrev pub extended : ℤ → ℤ → Job → Job
extended d now j = record j { visible_at = now +ℤ duration_millis d }

abbrev pub released : ℤ → ℤ → Job → Job
released d now j = record j { visible_at = now +ℤ duration_millis d; claim_id = "" }

module _ (l : Language) (d now : ℤ) (j : Job) where
  extended_lem : l.updated (set_pipeline (visible_after d empty)) now j ≡ extended d now j
  unfolding assign
  extended_lem =
      l.updated_set _ now j
      ∙ assigned_step l "visible_at" empty now j j (eval_now_plus l (duration_millis d) now j) refl
      ∙ l.assigned_empty now j _

  released_lem : l.updated (set_pipeline (release_set d)) now j ≡ released d now j
  unfolding assign
  released_lem =
      l.updated_set _ now j
      ∙ assigned_step l "visible_at" _ now j j (eval_now_plus l (duration_millis d) now j) refl
      ∙ assigned_step l "claim_id" empty now j _ (l.eval_literal (text "") now j) refl
      ∙ l.assigned_empty now j _

module _ {l : Language} (c : Collection l) (h : ClaimedJob) where
  -- A heartbeat with a positive extension sets the held job's visible_at to server time plus the
  -- extension and changes nothing else, and returns ErrLeaseLost if the job is not held; after a
  -- driver's error it did so or changed nothing; an extension <= 0 is refused and writes nothing.
  pub heartbeat-FencedOutcome :
      (extend now : ℤ) (db : c.Db)
      → ((extend ≤ℤ pos 0) × (heartbeat c h extend now db ≡ (err invalid_lease, db)))
        ⊎ ((pos 0 <ℤ extend)
            × FencedOutcome h
                (extended extend now)
                (c.content db)
                (c.content (heartbeat c h extend now db).1)
                (heartbeat c h extend now db).0)
  unfolding heartbeat
  heartbeat-FencedOutcome extend now db = elim (Bool-cases (leb_ℤ extend (pos 0))) [
    | inl low ↦ inl (leb_ℤ→le extend (pos 0) low, rw low)
    | inr high ↦ inr (
      ground arith,
      rw high (fenced_update-FencedOutcome c h _ _ now (extended_lem l extend now) "heartbeat" db),
    )
  ]

  -- A release with a delay >= 0 clears the held job's claim id and sets its visible_at to server
  -- time plus the delay, and returns ErrLeaseLost if the job is not held; after a driver's error
  -- it did so or changed nothing; a negative delay is refused and writes nothing.
  pub release-FencedOutcome :
      (delay now : ℤ) (db : c.Db)
      → ((delay <ℤ pos 0) × (release c h delay now db ≡ (err invalid_delay, db)))
        ⊎ ((pos 0 ≤ℤ delay)
            × FencedOutcome h
                (released delay now)
                (c.content db)
                (c.content (release c h delay now db).1)
                (release c h delay now db).0)
  unfolding release
  release-FencedOutcome delay now db = elim (Bool-cases (ltb_ℤ delay (pos 0))) [
    | inl low ↦ inl (ltb_ℤ→lt delay (pos 0) low, rw low)
    | inr high ↦ inr (
      ltb_ℤ→ge delay (pos 0) high,
      rw high (fenced_update-FencedOutcome c h _ _ now (released_lem l delay now) "release" db),
    )
  ]
