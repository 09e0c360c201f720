-- ===== src/Threads/Visit.antt =====
-- The walk's visit of one entry (invalidateAndEvict), with goroutines that hold locks.
use mongoqueue.Base.{
  ℕ, ◌<◌, some, ◌≡◌, ◌≢◌, inl, inr, true, false, arith, sym, ◌∙◌, ap, subst, true≢false, Bool-cases,
}
use native.Mathlib.Decide.{ℕ_discrete}
use mongoqueue.Cache.Table.{TimelineKey, TenantVtime, at, modify, address, size}
use mongoqueue.Cache.{VtimeCache, visit}
use mongoqueue.Cache.Inv.{Unused, at-modify_self, at-modify_ne, address-live, size-modify}
use mongoqueue.Cache.Walk.{Sound-frame}
use mongoqueue.Threads.{Pc, remove, visit_entry}
use mongoqueue.Threads.Evict.{Sound-remove, removed-Unused, Unused-of_remove, address-remove}
use mongoqueue.Threads.Frame.{on_entry-Calm, at-modify_cases}
use mongoqueue.Threads.Good.{Good, Calm-Good}

visit-locked : (t : TenantVtime) → (visit t).1.locked ≡ t.locked
unfolding visit
visit-locked t = ground arith

visit-kept_evicted : (t : TenantVtime) → (visit t).0 ≡ true → (visit t).1.evicted ≡ t.evicted
unfolding visit
visit-kept_evicted t e = ground arith

-- Only an entry whose lock is free is dropped.
visit-dropped :
    (t : TenantVtime) → (visit t).0 ≡ false → (t.locked ≡ false) × ((visit t).1.evicted ≡ true)
unfolding visit
visit-dropped t e = (ground arith, ground arith)

module _ (c : VtimeCache) (pc : ℕ → Pc) (k : TimelineKey) (a : ℕ) where
  -- The cache after the visit drops the entry.
  abbrev dropped : VtimeCache
  dropped = record c {
    heap = modify a (λ _. (visit (at a c.heap)).1) c.heap;
    tenants = remove k c.tenants;
  }

  evicts :
      Good c pc → address k c.tenants ≡ some a → (visit (at a c.heap)).0 ≡ false → Good dropped pc
  evicts v mapped gone = record {
    inv = record {
      sound =
          Sound-frame c.heap (remove k c.tenants) a _
            (removed-Unused c.heap k c.tenants a v.inv.sound mapped)
            (Sound-remove c.heap k c.tenants v.inv.sound);
      orphaned = λ b p u. orphan b (rw size-modify at p) u (ℕ_discrete a b);
    };
    owned = λ g j b e.
        let (m, l) = v.owned g j b e in
        (
          address-remove k c.tenants a j b mapped m (λ q. busy b l (sym q)),
          ap (λ (t : TenantVtime). t.locked) (at-modify_ne a b _ c.heap (busy b l)) ∙ l,
        );
    unique = v.unique;
    held = λ b e. v.held b (
        at-modify_cases a b (λ _. (visit (at a c.heap)).1) c.heap
          (λ (t : TenantVtime). t.locked ≡ true → (at b c.heap).locked ≡ true) (λ l. l)
          (λ q l. ap (λ x. (at x c.heap).locked) (sym q) ∙ sym (visit-locked (at a c.heap)) ∙ l) e);
    known = λ g j b e. elim (v.known g j b e) [
      | inl m ↦ elim (ℕ_discrete a b) [
        | yes q ↦ inr (now_evicted b q)
        | no n ↦ inl (address-remove k c.tenants a j b mapped m (λ q. n (sym q)))
      ]
      | inr old ↦ inr (still_evicted b old (ℕ_discrete a b))
    ];
  }
    where
      flags : ((at a c.heap).locked ≡ false) × ((visit (at a c.heap)).1.evicted ≡ true)
      flags = visit-dropped (at a c.heap) gone

      busy : (b : ℕ) → (at b c.heap).locked ≡ true → a ≢ b
      busy b l q = true≢false (sym l ∙ ap (λ x. (at x c.heap).locked) (sym q) ∙ flags.0)

      now_evicted : (b : ℕ) → a ≡ b → (at b dropped.heap).evicted ≡ true
      now_evicted b q =
          subst (λ x. (at x dropped.heap).evicted ≡ true) q
            (ap (λ (t : TenantVtime). t.evicted)
                (at-modify_self a _ c.heap (address-live c.heap c.tenants k a v.inv.sound mapped).0)
              ∙ flags.1)

      still_evicted :
          (b : ℕ) → (at b c.heap).evicted ≡ true → Dec (a ≡ b) → (at b dropped.heap).evicted ≡ true
      still_evicted b e (yes q) = now_evicted b q
      still_evicted b e (no n) =
          ap (λ (t : TenantVtime). t.evicted) (at-modify_ne a b _ c.heap n) ∙ e

      orphan :
          (b : ℕ)
          → b < size c.heap
          → Unused b (remove k c.tenants)
          → Dec (a ≡ b)
          → (at b dropped.heap).evicted ≡ true
      orphan b p u (yes q) = now_evicted b q
      orphan b p u (no n) =
          still_evicted b
            (v.inv.orphaned b p (Unused-of_remove k c.tenants a b mapped u (λ q. n (sym q)))) (no n)

  pub visit_move : Good c pc → address k c.tenants ≡ some a → Good (visit_entry k a c) pc
  unfolding visit_entry
  visit_move v mapped = elim (Bool-cases (visit (at a c.heap)).0) [
    | inl kept ↦ rw kept (
        Calm-Good c _ pc v (
          on_entry-Calm a (λ _. (visit (at a c.heap)).1) c v.inv
            (record {
              same_locked = visit-locked (at a c.heap);
              same_evicted = visit-kept_evicted (at a c.heap) kept;
            })))
    | inr gone ↦ rw gone (evicts v mapped gone)
  ]
