-- ===== src/Claim/Dispatch.antt =====
-- What a claim does on every branch.
use mongoqueue.Base.{
  String, ◌≡◌, refl, ◌⊎◌, false, Result, ok, err, some, ◌∙◌, Bool-cases, ap, inl, inr, arith, sym,
  subst, true≢false,
}
use mongoqueue.Base.Int.{ℤ, pos, ◌≤ℤ◌, ◌<ℤ◌, leb_ℤ, leb_ℤ→le}
use mongoqueue.Errors.{
  Error, DriverError, no_documents, duplicate_key, other, wrapped, driver, invalid_lease, no_job,
}
use mongoqueue.Duration.{duration_millis}
use mongoqueue.Job.{Job}
use mongoqueue.Mongo.Language.{Language}
use mongoqueue.Mongo.Collection.{
  Collection, Content, Same, Wrote, FindUpdateOutcome, First, ReturnDocument,
}
use mongoqueue.Claim.{ClaimedJob, claim, handle, claim_filter, claim_sort, claim_set}
use mongoqueue.Claim.Order.{
  IsVisible, before, leased, claim_set-leased, claim_filter-IsVisible, claim_sort-before,
}
use mongoqueue.Opts.{or_default}
use mongoqueue.Bson.{set_pipeline}

-- A job of the visible set that no other comes before.
pub record IsNext (partition : String) (now : ℤ) (c : Content) (j : Job) : Type 0 where
  pub stored : c j.id ≡ some j
  pub visible : IsVisible partition now j
  pub least :
      (id : String) (k : Job) → c id ≡ some k → IsVisible partition now k → before k j ≡ false

-- The next job is leased, and nothing else changes.
pub record Leases (partition claim_id : String) (lease now : ℤ) (c c' : Content) (j : Job)
    : Type 0 where
  pub next : IsNext partition now c j
  pub written : Wrote j.id (leased claim_id (duration_millis lease) now j) c c'

-- The handle of the claim that leased a job.
pub record IsHandle (claim_id : String) (lease now : ℤ) (j : Job) (h : ClaimedJob) : Type 0 where
  pub snapshot : h.job ≡ leased claim_id (duration_millis lease) now j
  pub job_id : h.job_id ≡ j.id
  pub claim_id_lem : h.claim_id ≡ claim_id

abbrev pub NoneVisible : String → ℤ → Content → Type 0
NoneVisible partition now c = (id : String) (j : Job) → c id ≡ some j → ¬ IsVisible partition now j

abbrev pub ClaimOutcome :
    String → String → ℤ → ℤ → Content → Content → Result Error ClaimedJob → Type 0
ClaimOutcome p id lease now c c' (ok h) =
    (pos 0 <ℤ lease) × ((j : Job) × Leases p id lease now c c' j × IsHandle id lease now j h)
ClaimOutcome p id lease now c c' (err invalid_lease) = (lease ≤ℤ pos 0) × Same c c'
ClaimOutcome p id lease now c c' (err no_job) = (pos 0 <ℤ lease) × NoneVisible p now c × Same c c'
ClaimOutcome p id lease now c c' (err (wrapped _ (driver _))) =
    (pos 0 <ℤ lease) × (Same c c' ⊎ ((j : Job) × Leases p id lease now c c' j))
ClaimOutcome p id lease now c c' (err _) = ⊥

module _ (l : Language) (p claim_id : String) (lease now : ℤ) (positive : pos 0 <ℤ lease) where
  abbrev Answer : Content → Content → Result DriverError Job → Type 0
  Answer =
      FindUpdateOutcome l (claim_filter p) claim_sort (set_pipeline (claim_set claim_id lease))
        ReturnDocument.after now

  First-Leases :
      {c c' : Content} {j : Job}
      → First l (claim_filter p) claim_sort now c j
      → Wrote j.id (l.updated (set_pipeline (claim_set claim_id lease)) now j) c c'
      → Leases p claim_id lease now c c' j
  First-Leases {c} {c'} {j} f w = record {
    next = record {
      stored = f.stored;
      visible = (claim_filter-IsVisible l p now j).0 f.selected;
      least = λ id k e v.
          sym (claim_sort-before l k j) ∙ f.least id k e ((claim_filter-IsVisible l p now k).1 v);
    };
    written = subst (λ x. Wrote j.id x c c') (claim_set-leased l claim_id lease now j) w;
  }

  handle-ClaimOutcome :
      (c c' : Content) (r : Result DriverError Job)
      → Answer c c' r
      → ClaimOutcome p claim_id lease now c c' (handle claim_id r)
  unfolding handle
  handle-ClaimOutcome c c' (ok r) (j, f, w, e) = (
    positive,
    (
      j,
      First-Leases f w,
      record {
        snapshot = e ∙ claim_set-leased l claim_id lease now j;
        job_id = ap (λ (x : Job). x.id) (e ∙ claim_set-leased l claim_id lease now j);
        claim_id_lem = refl;
      },
    ),
  )
  handle-ClaimOutcome c c' (err no_documents) (n, s) = (
    positive,
    λ id j e v. true≢false (sym ((claim_filter-IsVisible l p now j).1 v) ∙ n id j e),
    s,
  )
  handle-ClaimOutcome c c' (err duplicate_key) h = absurd h
  handle-ClaimOutcome c c' (err (other _)) (inl s) = (positive, inl s)
  handle-ClaimOutcome c c' (err (other _)) (inr (j, f, w)) = (positive, inr (j, First-Leases f w))

module _ {l : Language} (c : Collection l) where
  pub claim-ClaimOutcome :
      (claim_id partition : String) (lease now : ℤ) (db : c.Db)
      → ClaimOutcome
          (or_default partition)
          claim_id
          lease
          now
          (c.content db)
          (c.content (claim c claim_id partition lease now db).1)
          (claim c claim_id partition lease now db).0
  unfolding claim
  claim-ClaimOutcome claim_id partition lease now db = elim (Bool-cases (leb_ℤ lease (pos 0))) [
    | inl low ↦ rw low (leb_ℤ→le lease (pos 0) low, λ id. refl)
    | inr high ↦ rw high (
        handle-ClaimOutcome l (or_default partition) claim_id lease now (ground arith) _ _ _
          (c.find_one_and_update_outcome _ _ _ _ now db))
  ]
