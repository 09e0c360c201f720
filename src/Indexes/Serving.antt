-- ===== src/Indexes/Serving.antt =====
-- What the indexes of EnsureIndexes serve: the reads of queue.go and claim.go.
use mongoqueue.Base.{
  List, [], ◌∷◌, ok, err, Result, ◌⊎◌, inl, inr, ap, ◌≢◌, String, refl, true, ◌≡◌, arith, eq_iff,
  ◌∙◌, some, ap,
}
use mongoqueue.Base.Int.{ℤ, pos, negsuc}
use mongoqueue.Bson.{Doc, empty, entry, int, Doc}
use mongoqueue.Job.{Job, liveness_pending, text_field}
use mongoqueue.Mongo.Language.{Language}
use mongoqueue.Mongo.Index.{Serves, IndexModel}
use mongoqueue.Claim.{claim_filter, claim_sort}
use mongoqueue.Claim.Order.{claim_filter-IsVisible}
use mongoqueue.Indexes.{
  ensure_indexes, index_models, indexes_created, claim_index, pending, seed_index, claimed,
  clock_index,
}
use mongoqueue.Frontier.{vstamp_sort, pending_filter, seed_filter, clock_filter}
use mongoqueue.Frontier.Filters.{
  empty_lt, pending_filter-IsPending, seed_filter-OnTimeline, clock_filter-IsFenced,
}
use mongoqueue.Errors.{DriverError}

module _ (l : Language) where
  holds_pending :
      (now : ℤ) (j : Job) → j.liveness ≡ liveness_pending → l.selects pending now j ≡ true
  unfolding text_field
  holds_pending now j e = ground (
    arith,
    eq_iff j.liveness liveness_pending,
    l.selects_text "liveness" liveness_pending j.liveness empty now j refl,
    l.selects_empty now j,
  )

  same_partition :
      (p : String) (d : Doc) (j k : Job)
      → j.partition ≡ p
      → k.partition ≡ p
      → l.precedes (entry "partition" (int (pos 1)) d) j k ≡ l.precedes d j k
  unfolding text_field
  same_partition p d j k e f = l.precedes_tie "partition" p d j k (ap some e) (ap some f)

  same_tenant :
      (t : String) (d : Doc) (j k : Job)
      → j.tenant_id ≡ t
      → k.tenant_id ≡ t
      → l.precedes (entry "tenant" (int (pos 1)) d) j k ≡ l.precedes d j k
  unfolding text_field
  same_tenant t d j k e f = l.precedes_tie "tenant" t d j k (ap some e) (ap some f)

  -- More keys after those of a sort keep its order.
  claim_keys :
      (j k : Job)
      → l.precedes claim_sort j k ≡ true
      → l.precedes
          (entry "vstamp"
            (int (pos 1))
            (entry "_id" (int (pos 1)) (entry "visible_at" (int (pos 1)) empty)))
          j
          k
        ≡ true
  claim_keys j k b = ground (
    arith,
    l.precedes_vstamp_up (entry "_id" (int (pos 1)) empty) j k,
    l.precedes_vstamp_up (entry "_id" (int (pos 1)) (entry "visible_at" (int (pos 1)) empty)) j k,
    l.precedes_id empty j k,
    l.precedes_id (entry "visible_at" (int (pos 1)) empty) j k,
    l.precedes_empty j k,
    b,
  )

  claim_prefix :
      (j k : Job) → l.precedes (vstamp_sort (pos 1)) j k ≡ true → l.precedes claim_sort j k ≡ true
  claim_prefix j k b = ground (
    arith,
    l.precedes_vstamp_up empty j k,
    l.precedes_vstamp_up (entry "_id" (int (pos 1)) empty) j k,
    l.precedes_empty j k,
    b,
  )

  claim-Serves :
      (p : String)
      → Serves l claim_index ("partition" ∷ []) ("visible_at" ∷ []) (claim_filter p) claim_sort
  unfolding text_field
  claim-Serves p = record {
    tail = entry "visible_at" (int (pos 1)) empty;
    keys = refl;
    fixes = ((p, λ now j s. ap some ((claim_filter-IsVisible l p now j).0 s).in_partition), tt);
    covers = (inr (inr (inr (inl refl))), tt);
    holds = λ now j s. holds_pending now j ((claim_filter-IsVisible l p now j).0 s).is_pending;
    ordered = λ now j k s t b.
        same_partition p _ j k ((claim_filter-IsVisible l p now j).0 s).in_partition
          ((claim_filter-IsVisible l p now k).0 t).in_partition
        ∙ claim_keys j k b;
  }

  fallback-Serves :
      (p : String)
      → Serves l claim_index ("partition" ∷ []) [] (pending_filter p) (vstamp_sort (pos 1))
  unfolding text_field
  fallback-Serves p = record {
    tail = entry "_id" (int (pos 1)) (entry "visible_at" (int (pos 1)) empty);
    keys = refl;
    fixes = ((p, λ now j s. ap some ((pending_filter-IsPending l p now j).0 s).in_partition), tt);
    covers = tt;
    holds = λ now j s. holds_pending now j ((pending_filter-IsPending l p now j).0 s).is_pending;
    ordered = λ now j k s t b.
        same_partition p _ j k ((pending_filter-IsPending l p now j).0 s).in_partition
          ((pending_filter-IsPending l p now k).0 t).in_partition
        ∙ claim_keys j k (claim_prefix j k b);
  }

  seed-Serves :
      (t p : String)
      → Serves l seed_index
          ("tenant" ∷ "partition" ∷ [])
          []
          (seed_filter t p)
          (vstamp_sort (negsuc 0))
  unfolding text_field
  seed-Serves t p = record {
    tail = empty;
    keys = refl;
    fixes = (
      (t, λ now j s. ap some ((seed_filter-OnTimeline l t p now j).0 s).of_tenant),
      ((p, λ now j s. ap some ((seed_filter-OnTimeline l t p now j).0 s).in_partition), tt),
    );
    covers = tt;
    holds = λ now j s. holds_pending now j ((seed_filter-OnTimeline l t p now j).0 s).is_pending;
    ordered = λ now j k s u b.
        same_tenant t _ j k ((seed_filter-OnTimeline l t p now j).0 s).of_tenant
          ((seed_filter-OnTimeline l t p now k).0 u).of_tenant
        ∙ same_partition p _ j k ((seed_filter-OnTimeline l t p now j).0 s).in_partition
            ((seed_filter-OnTimeline l t p now k).0 u).in_partition
        ∙ b;
  }

  holds_claimed : (now : ℤ) (j : Job) → j.claim_id ≢ "" → l.selects claimed now j ≡ true
  unfolding text_field
  holds_claimed now j n =
      l.selects_gt "claim_id" "" j.claim_id empty now j refl
      ∙ ground (arith, (empty_lt l j.claim_id).1 n, l.selects_empty now j)

  clock-Serves :
      (p : String)
      → Serves l clock_index ("partition" ∷ []) [] (clock_filter p) (vstamp_sort (negsuc 0))
  unfolding text_field
  clock-Serves p = record {
    tail = empty;
    keys = refl;
    fixes = ((p, λ now j s. ap some ((clock_filter-IsFenced l p now j).0 s).in_partition), tt);
    covers = tt;
    holds = λ now j s. holds_claimed now j ((clock_filter-IsFenced l p now j).0 s).has_claim;
    ordered = λ now j k s u b.
        same_partition p _ j k ((clock_filter-IsFenced l p now j).0 s).in_partition
          ((clock_filter-IsFenced l p now k).0 u).in_partition
        ∙ b;
  }

  abbrev Asked : List IndexModel → IndexModel → Type 0
  Asked [] m = ⊥
  Asked (n ∷ rest) m = (n ≡ m) ⊎ Asked rest m

  -- The server has an index that serves a read.
  abbrev pub Served : List IndexModel → List String → List String → Doc → Doc → Type 0
  Served models fixed within filter sort =
      (m : IndexModel) × Asked models m × Serves l m fixed within filter sort

  -- If EnsureIndexes succeeds, the server accepted a list of indexes that has, for every partition
  -- and tenant, one that serves each read: the claim, the clock and the fallback of the frontier,
  -- and the seed. The index holds every job that the read's filter selects, at any time. Its
  -- leading keys are fields that the filter fixes: the partition, and for the seed the tenant and
  -- the partition. The keys of the read's sort come next, so those jobs stand in the sort's order.
  -- The index of the claim has visible_at among its keys.
  pub ensure_indexes-Served :
      (create_many : List IndexModel → Result DriverError (Unit {0})) (t p : String)
      → ensure_indexes create_many ≡ ok tt
      → (models : List IndexModel) × (create_many models ≡ ok tt)
        × Served models ("partition" ∷ []) ("visible_at" ∷ []) (claim_filter p) claim_sort
        × Served models ("partition" ∷ []) [] (clock_filter p) (vstamp_sort (negsuc 0))
        × Served models ("partition" ∷ []) [] (pending_filter p) (vstamp_sort (pos 1))
        × Served models ("tenant" ∷ "partition" ∷ []) [] (seed_filter t p) (vstamp_sort (negsuc 0))
  unfolding ensure_indexes indexes_created
  ensure_indexes-Served create_many t p e = (
    index_models,
    accepted (create_many index_models) e,
    (claim_index, inl refl, claim-Serves p),
    (clock_index, inr (inr (inl refl)), clock-Serves p),
    (claim_index, inl refl, fallback-Serves p),
    (seed_index, inr (inl refl), seed-Serves t p),
  )
    where
      accepted : (r : Result DriverError (Unit {0})) → indexes_created r ≡ ok tt → r ≡ ok tt
      accepted (ok tt) q = refl
      accepted (err x) q = cc
