-- ===== src/Opts/Valid.antt =====
-- What normalize accepts, and the error of what it does not.
use mongoqueue.Base.{
  ◌>>=◌, ◌≡◌, Result, Bool, ◌≢◌, ◌⊎◌, ◌==◌, if◌then◌else◌, ok, err, refl, true, false, arith,
  eq_iff, true≢false, sym, ◌∙◌, inl, inr, String, Bool-cases,
}
use mongoqueue.Base.Int.{pos, ◌≤ℤ◌, ◌<ℤ◌, ℤ, ltb_ℤ, ltb_ℤ→lt, ltb_ℤ→ge}
use mongoqueue.Errors.{Error, missing_job_id, invalid_weight, invalid_delay}
use mongoqueue.Opts.{EnqueueOpts, NormalizedEnqueue, normalize, default_partition, or_default}
use mongoqueue.VTime.{normalize_weight, normalize_cost}

-- The cost, at least 1.
abbrev pub Floored : ℤ → ℤ → Type 0
Floored o c = (pos 1 ≤ℤ c) × (o ≤ℤ c) × ((c ≡ pos 1) ⊎ (c ≡ o))

pub record Accepted (o : EnqueueOpts) (n : NormalizedEnqueue) : Type 0 where
  pub same_id : n.job_id ≡ o.job_id
  pub has_id : n.job_id ≢ ""
  pub same_tenant : n.tenant_id ≡ o.tenant_id
  pub partition :
      ((o.partition ≢ "") × (n.partition ≡ o.partition))
      ⊎ ((o.partition ≡ "") × (n.partition ≡ default_partition))
  pub named : n.partition ≢ ""
  pub cost : Floored o.cost n.cost
  pub weight :
      ((o.weight ≡ pos 0) × (n.weight ≡ pos 1)) ⊎ ((pos 0 <ℤ o.weight) × (n.weight ≡ o.weight))
  pub delay : (n.delay ≡ o.delay) × (pos 0 ≤ℤ n.delay)

abbrev pub NormalizeOutcome : EnqueueOpts → Result Error NormalizedEnqueue → Type 0
NormalizeOutcome o (ok n) = Accepted o n
NormalizeOutcome o (err missing_job_id) = o.job_id ≡ ""
NormalizeOutcome o (err invalid_weight) = (o.job_id ≢ "") × (o.weight <ℤ pos 0)
NormalizeOutcome o (err invalid_delay) = (o.job_id ≢ "") × (pos 0 ≤ℤ o.weight) × (o.delay <ℤ pos 0)
NormalizeOutcome o (err _) = ⊥

abbrev Weighed : ℤ → Result Error ℤ → Type 0
Weighed o (ok w) = ((o ≡ pos 0) × (w ≡ pos 1)) ⊎ ((pos 0 <ℤ o) × (w ≡ o))
Weighed o (err e) = (o <ℤ pos 0) × (e ≡ invalid_weight)

normalize_weight-Weighed : (o : ℤ) → Weighed o (normalize_weight o)
unfolding normalize_weight
normalize_weight-Weighed o = ground arith

normalize_cost_least : (o : ℤ) → Floored o (normalize_cost o)
unfolding normalize_cost
normalize_cost_least o = (ground arith, ground arith, ground arith)

or_default_cases :
    (p : String)
    → (((p ≢ "") × (or_default p ≡ p)) ⊎ ((p ≡ "") × (or_default p ≡ default_partition)))
      × (or_default p ≢ "")
or_default_cases p = elim (Bool-cases (p == "")) [
  | inl e ↦
      rw e
        (inr ((eq_iff p "").0 e, refl), λ q. true≢false (sym ((eq_iff default_partition "").1 q)))
  | inr e ↦ rw e (inl (named e, refl), named e)
]
  where
    named : (p == "") ≡ false → p ≢ ""
    named e q = true≢false (sym ((eq_iff p "").1 q) ∙ e)

-- Options are accepted exactly if they have a job id, a weight that is not negative and a delay
-- that is not negative. Then the id, the tenant and the delay are kept, an empty partition becomes
-- the default one, the cost is at least 1, and a weight of 0 becomes 1. The first of the three
-- that fails gives the error.
pub normalize-NormalizeOutcome : (o : EnqueueOpts) → NormalizeOutcome o (normalize o)
unfolding normalize
normalize-NormalizeOutcome o =
    go (o.job_id == "") refl (normalize_weight o.weight) (normalize_weight-Weighed o.weight)
      (ltb_ℤ o.delay (pos 0)) refl
  where
    go :
        (b : Bool)
        → (o.job_id == "") ≡ b
        → (r : Result Error ℤ) → Weighed o.weight r
        → (d : Bool) → ltb_ℤ o.delay (pos 0) ≡ d
        → NormalizeOutcome o (
            if b then err missing_job_id else do
              weight ← r
              if d
                  then err invalid_delay
                  else ok (record {
                    job_id = o.job_id;
                    tenant_id = o.tenant_id;
                    partition = or_default o.partition;
                    cost = normalize_cost o.cost;
                    weight = weight;
                    delay = o.delay;
                  }))
    go true e (err x) w d f = (eq_iff o.job_id "").0 e
    go true e (ok x) w d f = (eq_iff o.job_id "").0 e
    go false e (err x) w d f = rw w.1 (λ q. true≢false (sym ((eq_iff o.job_id "").1 q) ∙ e), w.0)
    go false e (ok w) h true f = (
      λ q. true≢false (sym ((eq_iff o.job_id "").1 q) ∙ e),
      ground arith,
      ltb_ℤ→lt o.delay (pos 0) f,
    )
    go false e (ok w) h false f = record {
      same_id = refl;
      has_id = λ q. true≢false (sym ((eq_iff o.job_id "").1 q) ∙ e);
      same_tenant = refl;
      partition = (or_default_cases o.partition).0;
      named = (or_default_cases o.partition).1;
      cost = normalize_cost_least o.cost;
      weight = h;
      delay = (refl, ltb_ℤ→ge o.delay (pos 0) f);
    }
