-- ===== src/Life/Moves.antt =====
-- What a move of the lifecycle keeps of a record.
use mongoqueue.Base.{
  String, refl, some, inr, ◌≡◌, Option, arith, ◌⊎◌, inl, ◌∙◌, ap, subst, sym, ◌≢◌,
}
use mongoqueue.Base.Int.{◌<ℤ◌, ℤ, ◌≤ℤ◌}
use mongoqueue.Job.{resolved_ne_pending, Job, liveness_pending, liveness_resolved}
use mongoqueue.Life.Abstract.{
  Cause, inserting, claiming, holding, canceling, collecting, Change, claim, extend, release,
  complete, cancel, Moves, stay, appear, change, collect, Later, Later-trans, Change-Later,
}

-- A job that was stored is still stored, in a later form, or was resolved in a later form and may
-- have been collected since.
abbrev pub Survives : Job → Option Job → Type 0
Survives j s =
    ((k : Job) × (s ≡ some k) × Later j k)
    ⊎ ((k : Job) × Later j k × (k.liveness ≡ liveness_resolved))

pub Moves-Survives :
    {F : Cause → Type 0} {j : Job} {s t : Option Job} → Moves F s t → Survives j s → Survives j t
Moves-Survives stay v = v
Moves-Survives m (inr v) = inr v
Moves-Survives (appear i f g) (inl (k, e, p)) = cc
Moves-Survives {F} {j} (change {j = i} {k = i'} x f q h) (inl (k, e, p)) =
    inl (i', refl, Later-trans (subst (Later j) (same e) p) (Change-Later q h))
  where
    same : some i ≡ some k → k ≡ i
    same y = cc
Moves-Survives {F} {j} (collect {j = i} f q) (inl (k, e, p)) =
    inr (k, p, ap (λ (z : Job). z.liveness) (same e) ∙ q)
  where
    same : some i ≡ some k → k ≡ i
    same y = cc

-- Until it is collected, a resolved job stays as it is.
abbrev pub NotCollecting : Cause → Type 0
NotCollecting x = x ≢ collecting

abbrev pub IsFinal : Job → Option Job → Type 0
IsFinal j s = (s ≡ some j) × (j.liveness ≡ liveness_resolved)

pub Moves-IsFinal :
    {j : Job} {s t : Option Job} → Moves NotCollecting s t → IsFinal j s → IsFinal j t
Moves-IsFinal stay v = v
Moves-IsFinal (appear i f g) (e, p) = cc
Moves-IsFinal {j} (change {j = i} x f q h) (e, p) = absurd (resolved_ne_pending (sym p ∙ same e))
  where
    same : some i ≡ some j → j.liveness ≡ liveness_pending
    same y = cc
Moves-IsFinal (collect f q) v = absurd (f refl)

-- The job is leased under a claim id until a time at least, or it is resolved.
abbrev pub IsLeased : String → ℤ → Option Job → Type 0
IsLeased mine until s =
    (j : Job) × (s ≡ some j)
    × ((j.liveness ≡ liveness_resolved) ⊎ ((j.claim_id ≡ mine) × (until ≤ℤ j.visible_at)))

-- What others do while the lease runs: they claim before its end, and hold other claim ids.
abbrev pub Foreign : String → ℤ → Cause → Type 0
Foreign mine until inserting = Unit
Foreign mine until (claiming now) = now <ℤ until
Foreign mine until (holding claim_id) = claim_id ≢ mine
Foreign mine until canceling = Unit
Foreign mine until collecting = ⊥

abbrev HoldsLease : String → ℤ → Job → Type 0
HoldsLease mine until j =
    (j.liveness ≡ liveness_resolved) ⊎ ((j.claim_id ≡ mine) × (until ≤ℤ j.visible_at))

Change-HoldsLease :
    (mine : String) (until : ℤ) {j k : Job} {x : Cause}
    → Foreign mine until x
    → j.liveness ≡ liveness_pending
    → Change j x k
    → HoldsLease mine until j
    → HoldsLease mine until k
Change-HoldsLease mine until f q h (inl r) = absurd (resolved_ne_pending (sym r ∙ q))
Change-HoldsLease mine until f q (claim id now u d) (inr (m, b)) = absurd (omega arith)
Change-HoldsLease mine until f q (extend u) (inr (m, b)) = absurd (f m)
Change-HoldsLease mine until f q (release u) (inr (m, b)) = absurd (f m)
Change-HoldsLease mine until f q (complete r now) (inr (m, b)) = absurd (f m)
Change-HoldsLease mine until f q (cancel now) (inr (m, b)) = inl refl

pub Moves-IsLeased :
    (mine : String) (until : ℤ) {s t : Option Job}
    → Moves (Foreign mine until) s t
    → IsLeased mine until s
    → IsLeased mine until t
Moves-IsLeased mine until stay v = v
Moves-IsLeased mine until (appear i f g) (k, e, v) = cc
Moves-IsLeased mine until (change {j = i} {k = i'} x f q h) (k, e, v) =
    (i', refl, Change-HoldsLease mine until f q h (subst (HoldsLease mine until) (same e) v))
  where
    same : some i ≡ some k → k ≡ i
    same y = cc
Moves-IsLeased mine until (collect f q) v = absurd f
