-- ===== src/Enqueue/Outcome.antt =====
-- What a call of enqueue leaves in the collection and in the cache, on each of its branches.
use mongoqueue.Base.{
  ℕ, refl, none, some, inl, inr, ok, err, ◌≡◌, Result, ◌<◌, List, ◌⊎◌, subst, sym, ◌∙◌,
}
use mongoqueue.Base.Int.{ℤ}
use mongoqueue.Errors.{Error, DriverError, duplicate_key, other, no_documents}
use mongoqueue.Mongo.Language.{Language}
use mongoqueue.Mongo.Collection.{Collection, Same, InsertOutcome}
use mongoqueue.Opts.{EnqueueOpts, NormalizedEnqueue, normalize}
use mongoqueue.Cache.Table.{size, at}
use mongoqueue.Cache.{VtimeCache, Hooks, Reservation, lock_timeline, abort}
use mongoqueue.Cache.Inv.{Inv, address-live}
use mongoqueue.Cache.Lock.{IsLocked, AllBenign, lock_timeline-IsLocked}
use mongoqueue.Cache.Outcome.{ReserveOutcome, Reserved}
use mongoqueue.Cache.Reserve.{reserve_locked-ReserveOutcome}
use mongoqueue.Cache.Settle.{commit-Committed, abort-Refused, commit-lwm, abort-lwm}
use mongoqueue.Enqueue.{
  Payload, new_job, Reads, hooks_of, Enqueued, settle, insert, enqueue, enqueue_normalized,
}
use mongoqueue.Enqueue.Stored.{
  key_of, Added, AddedJob, new_job-AddedJob, Follows, Stored, EnqueueOutcome,
}

module _ {l : Language} (c : Collection l) (hooks : Hooks) (p : Payload) (n : NormalizedEnqueue)
    (a : ℕ) (cache : VtimeCache) where
  -- A result, which the call always has, with the outcome.
  abbrev pub Settles : Enqueued c → c.Db → Type 0
  Settles (some (r, cache', db')) db =
      EnqueueOutcome hooks p n a cache r cache' (c.content db) (c.content db')
  Settles none db = ⊥

module _ {l : Language} (c : Collection l) (hooks : Hooks) (p : Payload) (n : NormalizedEnqueue)
    (a : ℕ) (cache : VtimeCache) (inside : a < size cache.heap) where
  settle-Settles :
      (res : Reservation) (cache' : VtimeCache) (db : c.Db)
      (r : Result DriverError (Unit {0}) × c.Db)
      → Reserved hooks n.tenant_id n.partition n.cost n.weight a cache cache' res
      → InsertOutcome (new_job p n res.vstamp) (c.content db) (c.content r.1) r.0
      → Settles c hooks p n a cache (settle c res cache' r) db
  unfolding settle
  settle-Settles res cache' db (ok _, db') v o = record {
    vstamp = res.vstamp;
    follows = record {
      clock = (at a cache'.heap).vtime;
      placed = rw (commit-lwm res cache') v.placed;
      stamped = v.stamped;
    };
    timeline =
        commit-Committed hooks n.tenant_id n.partition n.cost n.weight a cache cache' res inside v;
    added = new_job-AddedJob p n res.vstamp (c.content db) (c.content db') o;
  }
  settle-Settles res cache' db (err duplicate_key, db') v o = (
    abort-Refused hooks n.tenant_id n.partition n.cost n.weight a cache cache' res inside v,
    inr (inl (refl, o.0, o.1)),
  )
  settle-Settles res cache' db (err no_documents, db') v o = absurd o
  settle-Settles res cache' db (err (other s), db') v o = (
    abort-Refused hooks n.tenant_id n.partition n.cost n.weight a cache cache' res inside v,
    inr (inr (s, refl, landed o)),
  )
    where
      landed :
          Same (c.content db) (c.content db')
            ⊎ Added (new_job p n res.vstamp) (c.content db) (c.content db')
          → Same (c.content db) (c.content db')
            ⊎ ((v : ℤ) × Follows hooks p n a cache (abort res cache').lwm v
                × AddedJob p n v (c.content db) (c.content db'))
      landed (inl x) = inl x
      landed (inr x) = inr (
        res.vstamp,
        record {
          clock = (at a cache'.heap).vtime;
          placed = rw (abort-lwm res cache') v.placed;
          stamped = v.stamped;
        },
        new_job-AddedJob p n res.vstamp (c.content db) (c.content db') x,
      )

  insert-Settles :
      (db : c.Db) (r : Result Error Reservation × VtimeCache)
      → ReserveOutcome hooks n.tenant_id n.partition n.cost n.weight a cache r.1 r.0
      → Settles c hooks p n a cache (insert c p n db r) db
  unfolding insert
  insert-Settles db (ok res, cache') v =
      settle-Settles res cache' db (c.insert_one (new_job p n res.vstamp) db) v
        (c.insert_one_outcome (new_job p n res.vstamp) db)
  insert-Settles db (err e, cache') (v, f) = (v, inl (f, λ id. refl))

module _ {l : Language} (c : Collection l) where
  -- From a cache with the invariant, with options that normalize accepts and windows that keep to
  -- IsBenign: once a call of enqueue holds its timeline's lock, it ends. On success a pending job
  -- with the values of the call, stamped one stride after the clock at which the timeline was
  -- placed, is stored under an id that was free, and the clock stands at that stamp. On an error a
  -- current clock stays where it was, and the error says what failed: a read of the frontier or of
  -- the trailing edge, or the next stamp, and then nothing is stored; the insert, as
  -- ErrDuplicateJob, and then the id was taken and nothing is stored; or the insert, with another
  -- error of the driver, and then nothing is stored or that job is. In every case the lock is free
  -- again, and no other timeline's entry has changed.
  pub enqueue-EnqueueOutcome :
      (p : Payload) (windows : List (VtimeCache → VtimeCache)) (reads : Reads c)
      (opts : EnqueueOpts) (n : NormalizedEnqueue) (cache locked : VtimeCache) (a : ℕ) (db : c.Db)
      → Inv cache
      → AllBenign windows
      → normalize opts ≡ ok n
      → lock_timeline windows (key_of n) cache ≡ some (a, locked)
      → (r : Result Error (Unit {0})) × (cache' : VtimeCache) × (db' : c.Db) × (enqueue c p windows
            reads opts cache db
          ≡ some (r, cache', db'))
        × EnqueueOutcome (hooks_of c reads) p n a locked r cache' (c.content db) (c.content db')
  unfolding enqueue enqueue_normalized
  enqueue-EnqueueOutcome p windows reads opts n cache locked a db v b e f =
      go _ (rw (e, enqueue) (rw (f, enqueue_normalized) refl)) (
        insert-Settles c (hooks_of c reads) p n a locked inside db _ (
          reserve_locked-ReserveOutcome (hooks_of c reads) n.tenant_id n.partition n.cost n.weight a
            locked inside))
    where
      held : IsLocked (key_of n) a locked
      held = lock_timeline-IsLocked windows (key_of n) cache locked a v b f

      inside : a < size locked.heap
      inside = (address-live locked.heap locked.tenants (key_of n) a held.inv.sound held.mapped).0

      go :
          (x : Enqueued c)
          → enqueue c p windows reads opts cache db ≡ x
          → Settles c (hooks_of c reads) p n a locked x db
          → (r : Result Error (Unit {0})) × (cache' : VtimeCache) × (db' : c.Db) × (enqueue c p
                windows reads opts cache db
              ≡ some (r, cache', db'))
            × EnqueueOutcome (hooks_of c reads) p n a locked r cache' (c.content db) (c.content db')
      go (some (r, cache', db')) q s = (r, cache', db', q, s)
      go none q s = absurd s

  pub enqueue-Stored :
      (p : Payload) (windows : List (VtimeCache → VtimeCache)) (reads : Reads c)
      (opts : EnqueueOpts) (n : NormalizedEnqueue) (cache locked cache' : VtimeCache) (a : ℕ)
      (db db' : c.Db)
      → Inv cache
      → AllBenign windows
      → normalize opts ≡ ok n
      → lock_timeline windows (key_of n) cache ≡ some (a, locked)
      → enqueue c p windows reads opts cache db ≡ some (ok tt, cache', db')
      → Stored (hooks_of c reads) p n a locked (c.content db) (c.content db') cache'
  enqueue-Stored p windows reads opts n cache locked cache' a db db' v b e f q =
      let (r, d, s, q', o) =
        enqueue-EnqueueOutcome p windows reads opts n cache locked a db v b e f in
      subst (λ x. Settles c (hooks_of c reads) p n a locked x db) (sym q' ∙ q) o
