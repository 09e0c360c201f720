-- ===== src/Enqueue/Order.antt =====
-- The stamps of one timeline, in the order of its enqueues.
use mongoqueue.Base.{
  String, some, inl, inr, ok, ◌≡◌, subst, ℕ, ◌≤◌, ◌^◌, arith, Bool-cases, ◌==◌, sym, ◌∙◌, refl,
  List, eq_refl,
}
use mongoqueue.Base.Int.{ℤ, ◌≤ℤ◌, neg_part, ◌<ℤ◌}
use mongoqueue.Base.Int64.{IsInt64}
use mongoqueue.Mongo.Language.{Language}
use mongoqueue.Mongo.Collection.{Collection, Content}
use mongoqueue.Cache.{VtimeCache, lock_timeline}
use mongoqueue.Frontier.Filters.{OnTimeline}
use mongoqueue.Frontier.Extremes.{SeedOutcome, seed_tenant_vtime-SeedOutcome}
use mongoqueue.Enqueue.{Reads, hooks_of, Payload, enqueue}
use mongoqueue.Job.{Job}
use mongoqueue.Opts.{NormalizedEnqueue, EnqueueOpts, normalize}
use mongoqueue.Cache.Table.{Lwm, at, TenantVtime}
use mongoqueue.Cache.Outcome.{EdgeIs, IsCurrent, Placement}
use mongoqueue.Enqueue.Stored.{AddedJob, IsEnqueued, Stored, key_of}
use mongoqueue.Enqueue.Outcome.{enqueue-Stored}
use mongoqueue.VTime.Exact.{next_vstamp-increasing}
use mongoqueue.Cache.Inv.{Inv}
use mongoqueue.Cache.Lock.{AllBenign}

-- No pending job of the timeline has a stamp above `v`.
abbrev pub Covers : String → String → Content → ℤ → Type 0
Covers t p db v = (id : String) (j : Job) → db id ≡ some j → OnTimeline t p j → j.vstamp ≤ℤ v

-- Every stamp is an int64, as the field's type has it.
abbrev pub Int64Stamps : Content → Type 0
Int64Stamps db = (id : String) (j : Job) → db id ≡ some j → IsInt64 j.vstamp

-- Each pending job of a timeline was there before, with the same stamp: the others that use the
-- timeline claimed and resolved jobs, and inserted none.
abbrev pub NoneInserted : String → String → Content → Content → Type 0
NoneInserted t p old new =
    (id : String) (j : Job)
    → new id ≡ some j
    → OnTimeline t p j
    → (k : Job) × (old id ≡ some k) × OnTimeline t p k × (k.vstamp ≡ j.vstamp)

-- The clock that an entry keeps covers its timeline and is an int64.
abbrev pub Tracks : String → String → Content → TenantVtime → Type 0
Tracks t p db u = Covers t p db u.vtime × IsInt64 u.vtime

-- The new job's stamp is later than that of every pending job of its timeline, and the entry's
-- clock covers the timeline with the new job.
pub record InOrder (pl : Payload) (n : NormalizedEnqueue) (a : ℕ) (before after : Content)
    (cache' : VtimeCache) : Type 0 where
  pub vstamp : ℤ
  pub job : Job
  pub stored : after n.job_id ≡ some job
  pub is_enqueued : IsEnqueued pl n vstamp job
  pub last :
      (id : String) (j : Job)
      → before id ≡ some j
      → OnTimeline n.tenant_id n.partition j
      → j.vstamp <ℤ vstamp
  pub current : IsCurrent (at a cache'.heap)
  pub tracks : Tracks n.tenant_id n.partition after (at a cache'.heap)

module _ {l : Language} (c : Collection l) (reads : Reads c) (t p : String) where
  -- The clock of a seed covers the pending jobs of the timeline.
  edge-Covers :
      (db : c.Db) (edge : ℤ)
      → NoneInserted t p (c.content reads.at_seed) (c.content db)
      → Int64Stamps (c.content reads.at_seed)
      → EdgeIs (hooks_of c reads).seed_hook t p edge
      → Covers t p (c.content db) edge × (neg_part edge ≤ 2 ^ 63)
  edge-Covers db edge n i e = go (
      subst (SeedOutcome c t p (c.content reads.at_seed)) e
        (seed_tenant_vtime-SeedOutcome c reads.now reads.at_seed t p))
    where
      go :
          SeedOutcome c t p (c.content reads.at_seed) (ok edge)
          → Covers t p (c.content db) edge × (neg_part edge ≤ 2 ^ 63)
      go (inl top) = (
        λ id j s o.
            let (k, s', o', q) = n id j s o in subst (λ x. x ≤ℤ edge) q (top.largest id k s' o'),
        subst (λ x. neg_part x ≤ 2 ^ 63) top.stamp (i top.top.id top.top top.stored).1,
      )
      go (inr (none_such, z)) = (
        λ id j s o. let (k, s', o', q) = n id j s o in absurd (none_such id k s' o'),
        rw z (omega arith),
      )

  -- The clock at which the timeline was placed covers them.
  clock-Covers :
      (db : c.Db) (a : ℕ) (cache : VtimeCache) (lwm' : Lwm) (clock : ℤ)
      → NoneInserted t p (c.content reads.at_seed) (c.content db)
      → Int64Stamps (c.content reads.at_seed)
      → (IsCurrent (at a cache.heap) → Tracks t p (c.content db) (at a cache.heap))
      → Placement (hooks_of c reads) t p (at a cache.heap) cache.lwm lwm' clock
      → Covers t p (c.content db) clock × (neg_part clock ≤ 2 ^ 63)
  clock-Covers db a cache lwm' clock n i h (inl (s, q, _)) = let (x, y) = h s in rw q (x, y.1)
  clock-Covers db a cache lwm' clock n i h (inr (_, w)) =
      let (x, y) = edge-Covers db w.edge n i w.read in
      rw w.clock ((λ id j s o. ground (arith, x id j s o)), ground arith)

  AddedJob-Covers :
      (pl : Payload) (m : NormalizedEnqueue) (before after : Content) (clock v : ℤ)
      → Covers t p before clock
      → clock <ℤ v
      → AddedJob pl m v before after
      → Covers t p after v
  AddedJob-Covers pl m before after clock v h q (k, x, w) id j s o =
      elim (Bool-cases (k.id == id)) [
        | inl e ↦
            subst (λ x. x ≤ℤ v) (sym x.stamp ∙ stamp_of (rw e at (sym (w.1 id) ∙ s))) (omega arith)
        | inr e ↦ ground (arith, h id j (rw e at (sym (w.1 id) ∙ s)) o)
      ]
    where
      stamp_of : some k ≡ some j → k.vstamp ≡ j.vstamp
      stamp_of r = cc

module _ {l : Language} (c : Collection l) (reads : Reads c) (pl : Payload) (n : NormalizedEnqueue)
    (db : c.Db)
    (none_else : NoneInserted n.tenant_id n.partition (c.content reads.at_seed) (c.content db))
    (int64 : Int64Stamps (c.content reads.at_seed)) where
  Stored-InOrder :
      (a : ℕ) (cache cache' : VtimeCache) (after : Content)
      → (IsCurrent (at a cache.heap)
          → Tracks n.tenant_id n.partition (c.content db) (at a cache.heap))
      → Stored (hooks_of c reads) pl n a cache (c.content db) after cache'
      → InOrder pl n a (c.content db) after cache'
  Stored-InOrder a cache cache' after h s = record {
    vstamp = s.vstamp;
    job = s.added.0;
    stored = s.added.2.1 n.job_id ∙ rw (s.added.1.id, eq_refl n.job_id) refl;
    is_enqueued = s.added.1;
    last = λ id j e o. ground (arith, covered.0 id j e o, later.0);
    current = s.timeline.current;
    tracks = rw s.timeline.advanced (
      AddedJob-Covers c reads n.tenant_id n.partition pl n (c.content db) after s.follows.clock
          s.vstamp covered.0 later.0 s.added,
      later.1,
    );
  }
    where
      covered :
          Covers n.tenant_id n.partition (c.content db) s.follows.clock
          × (neg_part s.follows.clock ≤ 2 ^ 63)
      covered =
          clock-Covers c reads n.tenant_id n.partition db a cache cache'.lwm s.follows.clock
            none_else int64 h s.follows.placed

      later : (s.follows.clock <ℤ s.vstamp) × IsInt64 s.vstamp
      later = next_vstamp-increasing s.follows.clock n.cost n.weight covered.1 s.follows.stamped

  -- From a cache with the invariant, with options that normalize accepts and windows that keep to
  -- IsBenign: if a call of enqueue takes its timeline's lock and succeeds, each pending job of the
  -- timeline was pending there at the seed read with the same stamp, the stamps at that read are
  -- int64s, and a clock that was current covered the timeline's pending jobs and was an int64, then
  -- a pending job with the values of the call is stored, its stamp is later than the stamp of every
  -- pending job of the timeline, and the clock is current, covers them again and is an int64.
  pub enqueue-InOrder :
      (windows : List (VtimeCache → VtimeCache)) (opts : EnqueueOpts)
      (cache locked cache' : VtimeCache) (a : ℕ) (db' : c.Db)
      → Inv cache
      → AllBenign windows
      → normalize opts ≡ ok n
      → lock_timeline windows (key_of n) cache ≡ some (a, locked)
      → (IsCurrent (at a locked.heap)
          → Tracks n.tenant_id n.partition (c.content db) (at a locked.heap))
      → enqueue c pl windows reads opts cache db ≡ some (ok tt, cache', db')
      → InOrder pl n a (c.content db) (c.content db') cache'
  enqueue-InOrder windows opts cache locked cache' a db' v b e f h q =
      Stored-InOrder a locked cache' (c.content db') h
        (enqueue-Stored c pl windows reads opts n cache locked cache' a db db' v b e f q)
