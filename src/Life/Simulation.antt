-- ===== src/Life/Simulation.antt =====
-- The operations, as moves of the lifecycle.
use mongoqueue.Base.{
  String, some, inl, inr, ok, err, subst, Result, sym, none, true, ◌≡◌, ◌⊎◌, List, Result-cases,
  Option-cases,
}
use mongoqueue.Base.Int.{ℤ, pos}
use mongoqueue.Job.{Job}
use mongoqueue.Mongo.Collection.{InsertOutcome, Collection}
use mongoqueue.Errors.{
  Error, DriverError, no_documents, duplicate_key, other, wrapped, driver, missing_job_id,
  job_not_found, job_resolved,
}
use mongoqueue.Life.Acts.{
  enqueues, claims, heartbeats, releases, completes, cancels, collects, perform, database, Act,
  Collector, Allowed,
}
use mongoqueue.Life.Abstract.{
  Cause, Change, Moves, stay, complete, extend, release, collect, inserting, holding, canceling,
  collecting,
}
use mongoqueue.Enqueue.{Payload, new_job, settle, insert, enqueue, enqueue_normalized, Reads}
use mongoqueue.Claim.{ClaimedJob}
use mongoqueue.Claim.Dispatch.{claim-ClaimOutcome}
use mongoqueue.Resolve.Terminal.{complete-FencedOutcome}
use mongoqueue.Opts.{NormalizedEnqueue, EnqueueOpts, normalize}
use mongoqueue.Lease.Fence.{FencedOutcome}
use mongoqueue.Mongo.Language.{Language}
use mongoqueue.Resolve.Cancel.{CancelOutcome, Missed, cancel-CancelOutcome}
use mongoqueue.Cache.{Reservation, VtimeCache, lock_timeline}
use mongoqueue.Lease.Holder.{heartbeat-FencedOutcome, release-FencedOutcome}
use mongoqueue.Ttl.Partial.{ttl_index-resolved}
use mongoqueue.Ttl.{ttl_index}
use mongoqueue.Enqueue.Stored.{key_of}
use mongoqueue.Life.Writes.{
  AllMove, Same-AllMove, insert-AllMove, fenced-AllMove, claim-AllMove, Cancels-AllMove,
}

module _ (F : Cause → Type 0) where
  module _ {l : Language} (c : Collection l) where
    Missed-AllMove :
        (job_id : String) (db db' : c.Db)
        → Missed c job_id (λ d. d) db db'
        → AllMove F (c.content db) (c.content db')
    Missed-AllMove job_id db db' m =
        subst (λ d. AllMove F (c.content db) (c.content d)) (sym m.unchanged.2)
          (Same-AllMove F m.unchanged.1)

    cancel-AllMove :
        (job_id : String) (now : ℤ) (db db' : c.Db) (r : Result Error (Unit {0}))
        → F canceling
        → CancelOutcome c job_id (λ d. d) now db db' r
        → AllMove F (c.content db) (c.content db')
    cancel-AllMove job_id now db db' (ok _) f o = Cancels-AllMove F _ _ job_id now f o
    cancel-AllMove job_id now db db' (err missing_job_id) f o =
        subst (λ d. AllMove F (c.content db) (c.content d)) (sym o.1) (λ id. stay)
    cancel-AllMove job_id now db db' (err job_not_found) f o = Missed-AllMove job_id db db' o.0
    cancel-AllMove job_id now db db' (err job_resolved) f o = Missed-AllMove job_id db db' o.0
    cancel-AllMove job_id now db db' (err (wrapped _ (driver _))) f (inl s) = Same-AllMove F s
    cancel-AllMove job_id now db db' (err (wrapped _ (driver _))) f (inr (inl o)) =
        Cancels-AllMove F _ _ job_id now f o
    cancel-AllMove job_id now db db' (err (wrapped _ (driver _))) f (inr (inr o)) =
        Missed-AllMove job_id db db' o
    cancel-AllMove job_id now db db' (err _) f o = absurd o

    -- The insert of an enqueue, whatever its caller's cache holds.
    settle-AllMove :
        (p : Payload) (n : NormalizedEnqueue) (res : Reservation) (cache : VtimeCache) (db : c.Db)
        (r : Result DriverError (Unit {0}) × c.Db)
        → F inserting
        → InsertOutcome (new_job p n res.vstamp) (c.content db) (c.content r.1) r.0
        → AllMove F (c.content db) (c.content (database c db (settle c res cache r)))
    unfolding settle database
    settle-AllMove p n res cache db (ok _, db') f o =
        insert-AllMove F _ _ p n res.vstamp (ok tt) f o
    settle-AllMove p n res cache db (err duplicate_key, db') f o =
        insert-AllMove F _ _ p n res.vstamp (err duplicate_key) f o
    settle-AllMove p n res cache db (err no_documents, db') f o = absurd o
    settle-AllMove p n res cache db (err (other s), db') f o =
        insert-AllMove F _ _ p n res.vstamp (err (other s)) f o

    reserved-AllMove :
        (p : Payload) (n : NormalizedEnqueue) (db : c.Db)
        (r : Result Error Reservation × VtimeCache)
        → F inserting
        → AllMove F (c.content db) (c.content (database c db (insert c p n db r)))
    unfolding insert database
    reserved-AllMove p n db (ok res, cache) f =
        settle-AllMove p n res cache db (c.insert_one (new_job p n res.vstamp) db) f
          (c.insert_one_outcome (new_job p n res.vstamp) db)
    reserved-AllMove p n db (err e, cache) f = λ id. stay

    enqueue-AllMove :
        (p : Payload) (windows : List (VtimeCache → VtimeCache)) (reads : Reads c)
        (opts : EnqueueOpts) (cache : VtimeCache) (db : c.Db)
        → F inserting
        → AllMove F
            (c.content db)
            (c.content (database c db (enqueue c p windows reads opts cache db)))
    unfolding enqueue enqueue_normalized database
    enqueue-AllMove p windows reads opts cache db f = elim (Result-cases (normalize opts)) [
      | inr (e, q) ↦ rw (q, enqueue) (λ id. stay)
      | inl (n, q) ↦ elim (Option-cases (lock_timeline windows (key_of n) cache)) [
        | inl g ↦ rw (q, enqueue) (rw (g, enqueue_normalized) (λ id. stay))
        | inr ((a, locked), g) ↦
            rw (q, enqueue) (rw (g, enqueue_normalized) (reserved-AllMove p n db _ f))
      ]
    ]

    -- A holder's operation that refuses its argument leaves the database.
    guarded-AllMove :
        {P Q : Type 0} {e : Error} (h : ClaimedJob) (new : Job → Job) (db : c.Db)
        (r : Result Error (Unit {0}) × c.Db)
        → F (holding h.claim_id)
        → ((j : Job) → Change j (holding j.claim_id) (new j))
        → (P × (r ≡ (err e, db))) ⊎ (Q × FencedOutcome h new (c.content db) (c.content r.1) r.0)
        → AllMove F (c.content db) (c.content r.1)
    guarded-AllMove h new db r f g (inl (_, q)) =
        subst (λ (x : Result Error (Unit {0}) × c.Db). AllMove F (c.content db) (c.content x.1))
          (sym q) (λ id. stay)
    guarded-AllMove h new db r f g (inr (_, o)) = fenced-AllMove F _ _ h new r.0 f g o

    collected-Moves :
        (m : Collector c) (db : c.Db) (id : String)
        → F collecting
        → Moves F (c.content db id) (c.content (m.pass db) id)
    collected-Moves m db id f = go (m.fate db id)
      where
        go :
            (c.content (m.pass db) id ≡ c.content db id)
              ⊎ ((j : Job) × (c.content db id ≡ some j)
                  × (now : ℤ) × (l.selects (ttl_index (pos 0)).partial_filter now j ≡ true)
                  × (c.content (m.pass db) id ≡ none))
            → Moves F (c.content db id) (c.content (m.pass db) id)
        go (inl e) = subst (Moves F (c.content db id)) (sym e) stay
        go (inr (j, e, now, s, n)) =
            subst (Moves F (c.content db id)) (sym n) (
              subst (λ x. Moves F x none) (sym e)
                (collect f (ttl_index-resolved l (pos 0) now j s)))

    -- Whatever an operation returns, it takes the record under every _id along the lifecycle, or
    -- leaves it, for the operation's own cause: a fresh job appears where there was none, a pending
    -- job is claimed once it is due, extended, released or completed under its claim id, or
    -- canceled, a resolved job is collected, and no other change is made.
    pub perform-AllMove :
        (a : Act c) (db : c.Db)
        → Allowed c F a
        → AllMove F (c.content db) (c.content (perform c a db))
    unfolding perform
    perform-AllMove (enqueues p windows reads opts cache) db f =
        enqueue-AllMove p windows reads opts cache db f
    perform-AllMove (claims id p lease now) db f =
        claim-AllMove F _ _ _ id lease now _ f (claim-ClaimOutcome c id p lease now db)
    perform-AllMove (heartbeats h d now) db f =
        guarded-AllMove h _ db _ f (λ j. extend _) (heartbeat-FencedOutcome c h d now db)
    perform-AllMove (releases h d now) db f =
        guarded-AllMove h _ db _ f (λ j. release _) (release-FencedOutcome c h d now db)
    perform-AllMove (completes h r now) db f =
        guarded-AllMove h _ db _ f (λ j. complete r now) (complete-FencedOutcome c h r now db)
    perform-AllMove (cancels job_id now) db f =
        cancel-AllMove job_id now db _ _ f (cancel-CancelOutcome c job_id (λ d. d) now db)
    perform-AllMove (collects m) db f = λ id. collected-Moves m db id f
