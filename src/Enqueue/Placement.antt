-- ===== src/Enqueue/Placement.antt =====
-- Where the first enqueue of a timeline that its node has not seeded puts its job.
use mongoqueue.Base.{
  String, inl, inr, ok, err, true, false, ◌≡◌, ◌⊎◌, refl, sym, ◌∙◌, ap, subst, Result, Bool,
  eq_refl, some, List, ℕ, true≢false,
}
use mongoqueue.Base.Int.{ℤ, max_ℤ}
use mongoqueue.Errors.{Error}
use mongoqueue.VTime.{next_vstamp}
use mongoqueue.Mongo.Language.{Language}
use mongoqueue.Mongo.Collection.{Collection, Content}
use mongoqueue.Opts.{NormalizedEnqueue, EnqueueOpts, normalize}
use mongoqueue.Cache.Table.{Lwm, lwm_get, at}
use mongoqueue.Cache.{VtimeCache, lock_timeline}
use mongoqueue.Frontier.{compute_lwm}
use mongoqueue.Frontier.Filters.{IsFenced, IsPending, NoneSuch, IsTop, IsBottom}
use mongoqueue.Frontier.Extremes.{
  SeedOutcome, FrontierOutcome, compute_lwm-FrontierOutcome, seed_tenant_vtime-SeedOutcome,
}
use mongoqueue.Enqueue.{Payload, Reads, hooks_of, enqueue}
use mongoqueue.Enqueue.Stored.{AddedJob, key_of, Stored}
use mongoqueue.Enqueue.Outcome.{enqueue-Stored}
use mongoqueue.Cache.Inv.{Inv}
use mongoqueue.Cache.Lock.{AllBenign}
use mongoqueue.Cache.Outcome.{Freshened, Stores, Placement, Refreshes}

module _ {l : Language} (c : Collection l) (reads : Reads c) where
  -- The partition's frontier: the largest stamp of a fenced job; if there is none, the smallest of a
  -- pending one; if there is none either, the value that the cache had.
  abbrev pub IsFrontier : String → Lwm → ℤ → Type 0
  IsFrontier p lwm v =
      IsTop (IsFenced p) (c.content reads.at_clock) v
      ⊎ (NoneSuch (IsFenced p) (c.content reads.at_clock)
          × (IsBottom (IsPending p) (c.content reads.at_fallback) v
              ⊎ (NoneSuch (IsPending p) (c.content reads.at_fallback) × (v ≡ lwm_get p lwm))))

  -- The job is stored one stride after the later of the timeline's trailing edge and the frontier.
  pub record AtFrontier (pl : Payload) (n : NormalizedEnqueue) (lwm : Lwm) (before after : Content)
      : Type 0 where
    pub edge : ℤ
    pub frontier : ℤ
    pub vstamp : ℤ
    pub is_edge : SeedOutcome c n.tenant_id n.partition (c.content reads.at_seed) (ok edge)
    pub is_frontier : IsFrontier n.partition lwm frontier
    pub stamped : next_vstamp (max_ℤ edge frontier) n.cost n.weight ≡ ok vstamp
    pub added : AddedJob pl n vstamp before after

  Freshened-IsFrontier :
      (p : String) (lwm lwm' : Lwm)
      → Freshened (hooks_of c reads).lwm_hook p lwm lwm'
      → IsFrontier p lwm (lwm_get p lwm')
  Freshened-IsFrontier p lwm lwm' =
      go (compute_lwm c reads.now reads.at_clock reads.at_fallback p)
        (compute_lwm-FrontierOutcome c reads.now reads.at_clock reads.at_fallback p)
    where
      go :
          (r : Result Error (ℤ × Bool))
          → FrontierOutcome c p (c.content reads.at_clock) (c.content reads.at_fallback) r
          → Stores p r lwm lwm'
          → IsFrontier p lwm (lwm_get p lwm')
      go (ok (v, true)) o e = subst (IsFrontier p lwm) (sym (e p ∙ rw (eq_refl p) refl)) (found o)
        where
          found :
              FrontierOutcome c p
                (c.content reads.at_clock)
                (c.content reads.at_fallback)
                (ok (v, true))
              → IsFrontier p lwm v
          found (inl top) = inl top
          found (inr (no_fence, bottom)) = inr (no_fence, inl bottom)
      go (ok (v, false)) o e = inr (o.0, inr (o.1, ap (lwm_get p) e))
      go (err x) o e = absurd e

  -- From a cache with the invariant, with options that normalize accepts and windows that keep to
  -- IsBenign: if a call of enqueue takes the lock of an entry with neither seeded mark and
  -- succeeds, its job is stored pending in its tenant and partition, under an id that was free, one
  -- stride after the later of two stamps as the database had them at the call's reads: the
  -- timeline's trailing edge, which is its largest pending stamp or 0, and the partition's
  -- frontier. The frontier is the largest stamp of a job with a claim id, or else the smallest
  -- pending stamp, or else the value that the cache had.
  pub enqueue-AtFrontier :
      (pl : Payload) (windows : List (VtimeCache → VtimeCache)) (opts : EnqueueOpts)
      (n : NormalizedEnqueue) (cache locked cache' : VtimeCache) (a : ℕ) (db db' : c.Db)
      → Inv cache
      → AllBenign windows
      → normalize opts ≡ ok n
      → lock_timeline windows (key_of n) cache ≡ some (a, locked)
      → (at a locked.heap).ever_seeded ≡ false
      → (at a locked.heap).seeded ≡ false
      → enqueue c pl windows reads opts cache db ≡ some (ok tt, cache', db')
      → AtFrontier pl n locked.lwm (c.content db) (c.content db')
  enqueue-AtFrontier pl windows opts n cache locked cache' a db db' v b e f cold unseeded q =
      go s.follows.placed
    where
      s : Stored (hooks_of c reads) pl n a locked (c.content db) (c.content db') cache'
      s = enqueue-Stored c pl windows reads opts n cache locked cache' a db db' v b e f q

      go :
          Placement
            (hooks_of c reads)
            n.tenant_id
            n.partition
            (at a locked.heap)
            locked.lwm
            cache'.lwm
            s.follows.clock
          → AtFrontier pl n locked.lwm (c.content db) (c.content db')
      go (inl (current, _, _)) = absurd (true≢false (sym current.0 ∙ unseeded))
      go (inr (_, p)) = record {
        edge = p.edge;
        frontier = lwm_get n.partition cache'.lwm;
        vstamp = s.vstamp;
        is_edge =
            subst (SeedOutcome c n.tenant_id n.partition (c.content reads.at_seed)) p.read
              (seed_tenant_vtime-SeedOutcome c reads.now reads.at_seed n.tenant_id n.partition);
        is_frontier = refreshes p.refreshed;
        stamped =
            subst (λ x. next_vstamp x n.cost n.weight ≡ ok s.vstamp) p.clock s.follows.stamped;
        added = s.added;
      }
        where
          refreshes :
              Refreshes (hooks_of c reads) n.partition (at a locked.heap) locked.lwm cache'.lwm
              → IsFrontier n.partition locked.lwm (lwm_get n.partition cache'.lwm)
          refreshes (inl (warm, _)) = absurd (true≢false (sym warm ∙ cold))
          refreshes (inr (_, r)) = Freshened-IsFrontier n.partition locked.lwm cache'.lwm r
