-- ===== src/Reconcile/Refreshes.antt =====
-- A pass of Reconcile on a live context that no other goroutine disturbs.
use mongoqueue.Base.{
  String, List, [], ◌∷◌, refl, none, some, ok, err, true, false, Result, ◌≡◌, Bool, if◌then◌else◌,
  ◌==◌, ltb, arith, eq_iff, inl, inr, Bool-cases, ◌∙◌, subst, ap, eq_refl, ℕ, ◌||◌, ap₂, sym,
}
use mongoqueue.Base.Int.{ℤ, pos}
use mongoqueue.Errors.{Error, join_errors}
use mongoqueue.Cache.Table.{
  Lwm, lwm_get, lwm_get-put, Tenants, has_partition, TimelineKey, address, at,
}
use mongoqueue.Cache.{VtimeCache, refresh_lwm, store_lwm, partitions, invalidate_and_evict}
use mongoqueue.Reconcile.{Round, refresh_all, continued, report, reconcile}
use mongoqueue.Reconcile.Partitions.{count, count-partitions}
use mongoqueue.Cache.Inv.{Inv}
use mongoqueue.Cache.Idle.{Fate, evicted-partition, pruned_frontier, invalidate_and_evict-Walked}

-- Each partition's frontier is read with this answer, and nothing else happens.
abbrev pub live : (String → Result Error (ℤ × Bool)) → String → Round
live answers p = record {
  others = λ c. c;
  dead_before = none;
  hooks = record { seed_hook = none; lwm_hook = some answers };
  dead_after = false;
}

-- A frontier that was found replaces the stored one.
abbrev pub answered : Result Error (ℤ × Bool) → ℤ → ℤ
answered (ok (v, true)) old = v
answered (ok (v, false)) old = old
answered (err e) old = old

abbrev pub fails : Result Error (ℤ × Bool) → Bool
fails (ok r) = false
fails (err e) = true

lwm_get-store :
    (p q : String) (r : Result Error (ℤ × Bool)) (m : Lwm)
    → lwm_get p (store_lwm q r m).1 ≡ (if q == p then answered r (lwm_get p m) else lwm_get p m)
unfolding store_lwm
lwm_get-store p q (ok (v, true)) m = lwm_get-put p q v m
lwm_get-store p q (ok (v, false)) m = ground arith
lwm_get-store p q (err e) m = ground arith

answered_again : (r : Result Error (ℤ × Bool)) (d : ℤ) → answered r (answered r d) ≡ answered r d
answered_again (ok (v, true)) d = refl
answered_again (ok (v, false)) d = refl
answered_again (err e) d = refl

Fate-lwm :
    (b : Bool) (k : TimelineKey) (a : ℕ) (c : VtimeCache) (m : Lwm) (c' : VtimeCache)
    → Fate b k a (record c { lwm = m }) c'
    → Fate b k a c c'
Fate-lwm true k a c m c' f = f
Fate-lwm false k a c m c' f = f

module _ (answers : String → Result Error (ℤ × Bool)) where
  -- The loop's frontier, and whether a refresh failed.
  record Refreshed (ps : List String) (c : VtimeCache) (r : List Error × VtimeCache) : Type 0 where
    same_heap : r.1.heap ≡ c.heap
    same_map : r.1.tenants ≡ c.tenants
    frontier :
        (p : String)
        → lwm_get p r.1.lwm
          ≡ (if ltb 0 (count p ps) then answered (answers p) (lwm_get p c.lwm) else lwm_get p c.lwm)

  refresh_all-Refreshed :
      (ps : List String) (c : VtimeCache) → Refreshed ps c (refresh_all (live answers) ps c)
  unfolding refresh_all refresh_lwm continued
  refresh_all-Refreshed [] c = record { same_heap = refl; same_map = refl; frontier = λ p. refl }
  refresh_all-Refreshed (q ∷ ps) c =
      go (store_lwm q (answers q) c.lwm).0
        (refresh_all-Refreshed ps (record c { lwm = (store_lwm q (answers q) c.lwm).1 }))
    where
      next : VtimeCache
      next = record c { lwm = (store_lwm q (answers q) c.lwm).1 }

      step :
          (p : String)
          → (if ltb 0 (count p ps)
              then answered (answers p) (lwm_get p next.lwm)
              else lwm_get p next.lwm)
            ≡ (if ltb 0 (count p (q ∷ ps))
                then answered (answers p) (lwm_get p c.lwm)
                else lwm_get p c.lwm)
      step p = elim (Bool-cases (q == p)) [
        | inl e ↦
            rw (lwm_get-store p q (answers q) c.lwm, e)
              (rw ((eq_iff q p).0 e) (ground (arith, answered_again (answers p) (lwm_get p c.lwm))))
        | inr n ↦ rw (lwm_get-store p q (answers q) c.lwm, n) refl
      ]

      go :
          (r : Result Error (Unit {0}))
          → Refreshed ps next (refresh_all (live answers) ps next)
          → Refreshed (q ∷ ps) c (continued false r next (refresh_all (live answers) ps next))
      go (ok _) h = record {
        same_heap = h.same_heap;
        same_map = h.same_map;
        frontier = λ p. h.frontier p ∙ step p;
      }
      go (err e) h = record {
        same_heap = h.same_heap;
        same_map = h.same_map;
        frontier = λ p. h.frontier p ∙ step p;
      }

  -- The loop has an error exactly if the read of one of its partitions fails.
  abbrev Faults : List String → List Error → Type 0
  Faults ps [] = (p : String) → ltb 0 (count p ps) ≡ true → fails (answers p) ≡ false
  Faults ps (e ∷ es) = (p : String) × (ltb 0 (count p ps) ≡ true) × (fails (answers p) ≡ true)

  refresh_all-Faults :
      (ps : List String) (c : VtimeCache) → Faults ps (refresh_all (live answers) ps c).0
  unfolding refresh_all refresh_lwm continued store_lwm
  refresh_all-Faults [] c = λ p e. cc
  refresh_all-Faults (q ∷ ps) c = go (λ d. refresh_all-Faults ps d) (answers q) refl
    where
      next : Result Error (ℤ × Bool) → VtimeCache
      next r = record c { lwm = (store_lwm q r c.lwm).1 }

      more : (es : List Error) → fails (answers q) ≡ false → Faults ps es → Faults (q ∷ ps) es
      more [] f h = λ p e. elim (Bool-cases (q == p)) [
        | inl hit ↦ subst (λ x. fails (answers x) ≡ false) ((eq_iff q p).0 hit) f
        | inr miss ↦ h p (ground (arith, miss))
      ]
      more (e ∷ es) f (p, i, g) = (p, ground arith, g)

      go :
          ((d : VtimeCache) → Faults ps (refresh_all (live answers) ps d).0)
          → (r : Result Error (ℤ × Bool)) → answers q ≡ r
          → Faults
              (q ∷ ps)
              (continued false
                (store_lwm q r c.lwm).0
                (next r)
                (refresh_all (live answers) ps (next r))).0
      go ih (ok (v, true)) a = more _ (ap fails a) (ih (next (ok (v, true))))
      go ih (ok (v, false)) a = more _ (ap fails a) (ih (next (ok (v, false))))
      go ih (err e) a = (q, rw (eq_refl q) (ground arith), ap fails a)

  -- A result of Reconcile, as an error or none.
  abbrev pub Reported : Tenants → Result Error (Unit {0}) → Type 0
  Reported ts (ok _) = (p : String) → has_partition p ts ≡ true → fails (answers p) ≡ false
  Reported ts (err e) = (p : String) × (has_partition p ts ≡ true) × (fails (answers p) ≡ true)

  report-Reported :
      (ts : Tenants) (es : List Error) → Faults (partitions ts) es → Reported ts (report es)
  unfolding report join_errors
  report-Reported ts [] h = λ p e. h p (ground (arith, count-partitions ts p))
  report-Reported ts (e ∷ []) (p, i, f) = (p, ground (arith, count-partitions ts p), f)
  report-Reported ts (e ∷ e' ∷ es) (p, i, f) = (p, ground (arith, count-partitions ts p), f)

  -- The pass as a whole.
  pub record Reconciled (c c' : VtimeCache) (r : Result Error (Unit {0})) : Type 0 where
    pub reported : Reported c.tenants r
    pub frontier :
        (p : String)
        → lwm_get p c'.lwm
          ≡ (if has_partition p c'.tenants then answered (answers p) (lwm_get p c.lwm) else pos 0)
    pub timelines :
        (k : TimelineKey) (a : ℕ)
        → address k c.tenants ≡ some a
        → Fate ((at a c.heap).touched || (at a c.heap).locked) k a c c'

  -- From a cache with the invariant, a pass of Reconcile on a live context that no other goroutine
  -- disturbs refreshes the frontier of every partition that keeps a timeline, those whose read
  -- fails or finds none excepted, and drops every other stored frontier; it marks stale the
  -- timelines in use and evicts the idle ones, whether or not a read failed; and it returns an
  -- error exactly if the read of one of the cache's partitions failed.
  pub reconcile-Reconciled :
      (c : VtimeCache)
      → Inv c
      → Reconciled c
          (reconcile none (live answers) (λ d. d) c).1
          (reconcile none (live answers) (λ d. d) c).0
  unfolding reconcile
  reconcile-Reconciled c v =
      subst (λ x. Reconciled c (invalidate_and_evict x) (report out.0)) same
        (record {
          reported = report-Reported c.tenants out.0 (refresh_all-Faults (partitions c.tenants) c);
          frontier = λ p. pruned_frontier next p ∙ kept p;
          timelines = λ k a e.
              Fate-lwm _ k a c out.1.lwm _
                (invalidate_and_evict-Walked next k a
                  (record { sound = v.sound; orphaned = v.orphaned }) e).fate;
        })
    where
      out : List Error × VtimeCache
      out = refresh_all (live answers) (partitions c.tenants) c

      h : Refreshed (partitions c.tenants) c out
      h = refresh_all-Refreshed (partitions c.tenants) c

      next : VtimeCache
      next = record c { lwm = out.1.lwm }

      same : next ≡ out.1
      same =
          ap₂ (λ x y. record { heap = x; tenants = y; lwm = out.1.lwm }) (sym h.same_heap)
            (sym h.same_map)

      kept :
          (p : String)
          → (if has_partition p (invalidate_and_evict next).tenants
              then lwm_get p next.lwm
              else pos 0)
            ≡ (if has_partition p (invalidate_and_evict next).tenants
                then answered (answers p) (lwm_get p c.lwm)
                else pos 0)
      kept p = ground (arith, evicted-partition next p, h.frontier p, count-partitions c.tenants p)
