-- ===== src/Ttl/Partial.antt =====
-- Which jobs the partial TTL index holds.
use mongoqueue.Base.{◌↔◌, refl, true, ◌≡◌, arith, eq_iff}
use mongoqueue.Base.Int.{ℤ}
use mongoqueue.Bson.{empty}
use mongoqueue.Job.{Job, liveness_resolved, text_field}
use mongoqueue.Mongo.Language.{Language}
use mongoqueue.Ttl.{ttl_index}

-- A job in the TTL index is resolved, whatever the retention and the other fields of the job.
pub ttl_index-resolved :
    (l : Language) (seconds now : ℤ) (j : Job)
    → l.selects (ttl_index seconds).partial_filter now j ≡ true
    → j.liveness ≡ liveness_resolved
unfolding text_field
ttl_index-resolved l seconds now j s = ground (
  arith,
  eq_iff j.liveness liveness_resolved,
  l.selects_text "liveness" liveness_resolved j.liveness empty now j refl,
  l.selects_empty now j,
  s,
)

-- The partial filter of the index selects the resolved jobs.
pub ttl_index-IsResolved :
    (l : Language) (seconds now : ℤ) (j : Job)
    → (l.selects (ttl_index seconds).partial_filter now j ≡ true) ↔ (j.liveness ≡ liveness_resolved)
unfolding text_field
ttl_index-IsResolved l seconds now j = (
  λ s. ttl_index-resolved l seconds now j s,
  λ e. ground (
    arith,
    eq_iff j.liveness liveness_resolved,
    l.selects_text "liveness" liveness_resolved j.liveness empty now j refl,
    l.selects_empty now j,
    e,
  ),
)
