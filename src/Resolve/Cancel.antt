-- ===== src/Resolve/Cancel.antt =====
-- Cancel and get, on every branch.
use mongoqueue.Base.{
  String, ◌≡◌, ◌≢◌, inl, inr, ◌∙◌, Result, Bool-cases, ok, some, ◌==◌, eq_iff, err, none,
  true≢false, sym, arith, subst, ap, Option-cases, ℕ, ◌⊎◌, suc, refl, zero,
}
use mongoqueue.Mongo.Collection.{
  Content, Collection, FindOutcome, Updates, NoMatch, Same, UpdateOutcome, Wrote,
}
use mongoqueue.Mongo.Language.{Language}
use mongoqueue.Errors.{
  Error, wrapped, driver, missing_job_id, job_not_found, DriverError, other, no_documents,
  duplicate_key, job_resolved,
}
use mongoqueue.Resolve.{get, found, id_filter, missed, canceled, cancel, cancel_filter, resolve_set}
use mongoqueue.Job.{Job, liveness_pending, resolution_canceled}
use mongoqueue.Base.Int.{ℤ}
use mongoqueue.Bson.{empty, set_pipeline}
use mongoqueue.Resolve.Terminal.{
  id_filter-eq, NotPending, Cancels, cancel_filter-eq, resolved, resolve_set-resolved,
}

abbrev pub GetOutcome : String → Content → Result Error Job → Type 0
GetOutcome job_id c (ok j) = c job_id ≡ some j
GetOutcome job_id c (err missing_job_id) = job_id ≡ ""
GetOutcome job_id c (err job_not_found) = c job_id ≡ none
GetOutcome job_id c (err (wrapped _ (driver _))) = job_id ≢ ""
GetOutcome job_id c (err _) = ⊥

module _ {l : Language} (c : Collection l) where
  found-GetOutcome :
      (job_id : String) (now : ℤ) (db : c.Db) (r : Result DriverError Job)
      → job_id ≢ ""
      → FindOutcome l (id_filter job_id) empty empty now (c.content db) r
      → GetOutcome job_id (c.content db) (found r)
  unfolding found
  found-GetOutcome job_id now db (ok r) h (j, f, e) =
      subst (λ x. c.content db x ≡ some r) same_id
        (f.stored ∙ ap some (sym (e ∙ l.project_empty j)))
    where
      same_id : j.id ≡ job_id
      same_id = ground (arith, id_filter-eq l job_id now j, eq_iff j.id job_id, f.selected)
  found-GetOutcome job_id now db (err no_documents) h n =
      elim (Option-cases (c.content db job_id)) [
        | inl e ↦ e
        | inr (j, e) ↦ absurd (
            true≢false (
              sym (
                id_filter-eq l job_id now j
                ∙ ground (arith, eq_iff j.id job_id, c.id_stored db job_id j e))
              ∙ n job_id j e))
      ]
  found-GetOutcome job_id now db (err duplicate_key) h u = absurd u
  found-GetOutcome job_id now db (err (other _)) h u = h

  pub get-GetOutcome :
      (job_id : String) (now : ℤ) (db : c.Db)
      → GetOutcome job_id (c.content db) (get c job_id now db)
  unfolding get
  get-GetOutcome job_id now db = elim (Bool-cases (job_id == "")) [
    | inl e ↦ rw e ((eq_iff job_id "").0 e)
    | inr n ↦ rw n (
        found-GetOutcome job_id now db _ (λ e. true≢false (sym ((eq_iff job_id "").1 e) ∙ n))
          (c.find_one_outcome _ _ _ now db))
  ]

  -- The update matched no pending job; `between` is what others did before the diagnostic read.
  pub record Missed (job_id : String) (between : c.Db → c.Db) (db db' : c.Db) : Type 0 where
    pub not_pending : NotPending job_id (c.content db)
    pub unchanged : (mid : c.Db) × Same (c.content db) (c.content mid) × (db' ≡ between mid)

  abbrev pub CancelOutcome :
      String → (c.Db → c.Db) → ℤ → c.Db → c.Db → Result Error (Unit {0}) → Type 0
  CancelOutcome job_id between now db db' (ok _) = Cancels job_id now (c.content db) (c.content db')
  CancelOutcome job_id between now db db' (err missing_job_id) = (job_id ≡ "") × (db' ≡ db)
  CancelOutcome job_id between now db db' (err job_not_found) =
      Missed job_id between db db' × (c.content db' job_id ≡ none)
  CancelOutcome job_id between now db db' (err job_resolved) =
      Missed job_id between db db' × ((k : Job) × (c.content db' job_id ≡ some k))
  CancelOutcome job_id between now db db' (err (wrapped _ (driver _))) =
      Same (c.content db) (c.content db')
      ⊎ (Cancels job_id now (c.content db) (c.content db') ⊎ Missed job_id between db db')
  CancelOutcome job_id between now db db' (err _) = ⊥

  Updates-Cancels :
      (job_id : String) (now : ℤ) {a b : Content}
      → Updates l (cancel_filter job_id) (set_pipeline (resolve_set resolution_canceled)) now a b
      → Cancels job_id now a b
  Updates-Cancels job_id now {a} {b} (j, m, w) = (
    j,
    record {
      stored = subst (λ x. a x ≡ some j) same_id m.stored;
      is_pending = ground (
        arith,
        cancel_filter-eq l job_id now j,
        m.selected,
        eq_iff j.id job_id,
        eq_iff j.liveness liveness_pending,
      );
    },
    subst (λ x. Wrote x (resolved resolution_canceled now j) a b) same_id
        (subst (λ x. Wrote j.id x a b) (resolve_set-resolved l resolution_canceled now j) w),
  )
    where
      same_id : j.id ≡ job_id
      same_id = ground (arith, cancel_filter-eq l job_id now j, m.selected, eq_iff j.id job_id)

  NoMatch-NotPending :
      (job_id : String) (now : ℤ) (db : c.Db)
      → NoMatch l (cancel_filter job_id) now (c.content db)
      → NotPending job_id (c.content db)
  NoMatch-NotPending job_id now db n j v = true≢false (
      sym (
        cancel_filter-eq l job_id now j
        ∙ ground (
          arith,
          v.is_pending,
          eq_iff j.id job_id,
          eq_iff j.liveness liveness_pending,
          c.id_stored db job_id j v.stored,
        ))
      ∙ n job_id j v.stored)

  missed-CancelOutcome :
      (job_id : String) (between : c.Db → c.Db) (now : ℤ) (db db' : c.Db) (r : Result Error Job)
      → job_id ≢ ""
      → Missed job_id between db db'
      → GetOutcome job_id (c.content db') r
      → CancelOutcome job_id between now db db' (missed r)
  unfolding missed
  missed-CancelOutcome job_id between now db db' (ok k) h m g = (m, (k, g))
  missed-CancelOutcome job_id between now db db' (err missing_job_id) h m g = absurd (h g)
  missed-CancelOutcome job_id between now db db' (err job_not_found) h m g = (m, g)
  missed-CancelOutcome job_id between now db db' (err (wrapped _ (driver _))) h m g = inr (inr m)
  missed-CancelOutcome job_id between now db db' (err _) h m g = absurd g

  canceled-CancelOutcome :
      (job_id : String) (between : c.Db → c.Db) (now : ℤ) (db mid : c.Db) (r : Result DriverError ℕ)
      → job_id ≢ ""
      → UpdateOutcome l
          (cancel_filter job_id)
          (set_pipeline (resolve_set resolution_canceled))
          now
          (c.content db)
          (c.content mid)
          r
      → CancelOutcome job_id between now db
          (canceled c job_id between now (r, mid)).1
          (canceled c job_id between now (r, mid)).0
  unfolding canceled
  canceled-CancelOutcome job_id between now db mid (ok zero) h (n, s) =
      missed-CancelOutcome job_id between now db (between mid) _ h
        (record { not_pending = NoMatch-NotPending job_id now db n; unchanged = (mid, s, refl) })
        (get-GetOutcome job_id now (between mid))
  canceled-CancelOutcome job_id between now db mid (ok (suc zero)) h u =
      Updates-Cancels job_id now u
  canceled-CancelOutcome job_id between now db mid (ok (suc (suc n))) h u = absurd u
  canceled-CancelOutcome job_id between now db mid (err e) h (inl s) = inl s
  canceled-CancelOutcome job_id between now db mid (err e) h (inr u) =
      inr (inl (Updates-Cancels job_id now u))

  pub cancel-CancelOutcome :
      (job_id : String) (between : c.Db → c.Db) (now : ℤ) (db : c.Db)
      → CancelOutcome job_id between now db
          (cancel c job_id between now db).1
          (cancel c job_id between now db).0
  unfolding cancel
  cancel-CancelOutcome job_id between now db = elim (Bool-cases (job_id == "")) [
    | inl e ↦ rw e ((eq_iff job_id "").0 e, refl)
    | inr n ↦ rw n (
        canceled-CancelOutcome job_id between now db _ _
          (λ e. true≢false (sym ((eq_iff job_id "").1 e) ∙ n)) (c.update_one_outcome _ _ now db))
  ]
