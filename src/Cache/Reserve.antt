-- ===== src/Cache/Reserve.antt =====
-- A reservation, step by step, on every branch.
use mongoqueue.Base.{
  ℕ, ◌<◌, String, ◌≡◌, refl, ◌⊎◌, inl, inr, true, false, Result, ok, err, ◌∙◌, ap, Result-cases,
  ◌↔◌, Bool-cases, true≢false, sym, Bool, if◌then◌else◌,
}
use mongoqueue.Base.Int.{ℤ}
use mongoqueue.Errors.{Error}
use mongoqueue.VTime.{next_vstamp}
use mongoqueue.Cache.Table.{TenantVtime, size, at, modify, Lwm}
use mongoqueue.Cache.{VtimeCache, Hooks, stamp_at, unlocked, touch, stamp_seeded, reserve_locked}
use mongoqueue.Cache.Inv.{size-modify, at-modify_self, at-modify_ne}
use mongoqueue.Cache.Seed.{SeedResult, seed-SeedResult}
use mongoqueue.Cache.Outcome.{SeedFailed, Refreshes, IsCurrent, Placement, OnlyAt, ReserveOutcome}

module _ (a : ℕ) (c : VtimeCache) (inside : a < size c.heap) where
  -- Write an entry back, with a new frontier map.
  abbrev write : TenantVtime → Lwm → VtimeCache
  write t lwm = record c { heap = modify a (λ _. t) c.heap; lwm = lwm }

  write-at : (t : TenantVtime) (lwm : Lwm) → at a (write t lwm).heap ≡ t
  write-at t lwm = at-modify_self a (λ _. t) c.heap inside

  write-OnlyAt :
      (t : TenantVtime) (lwm : Lwm) → t.evicted ≡ (at a c.heap).evicted → OnlyAt a c (write t lwm)
  write-OnlyAt t lwm e = record {
    tenants = refl;
    sizes = size-modify a (λ _. t) c.heap;
    others = λ b n. at-modify_ne a b (λ _. t) c.heap n;
    still = ap (λ (x : TenantVtime). x.evicted) (write-at t lwm) ∙ e;
  }

  -- The stamp at an entry that was placed.
  stamp_outcome :
      (hooks : Hooks) (tn p : String) (cost weight : ℤ) (t : TenantVtime) (lwm : Lwm)
      → t.evicted ≡ (at a c.heap).evicted
      → t.locked ≡ (at a c.heap).locked
      → IsCurrent t
      → Placement hooks tn p (at a c.heap) c.lwm lwm t.vtime
      → ReserveOutcome hooks tn p cost weight a c
          (stamp_at a t cost weight (record c { lwm = lwm })).1
          (stamp_at a t cost weight (record c { lwm = lwm })).0
  unfolding stamp_at unlocked
  stamp_outcome hooks tn p cost weight t lwm ev lk cu pl =
      elim (Result-cases (next_vstamp t.vtime cost weight)) [
        | inl (v, e) ↦
            rw (e, stamp_at)
              (record {
                target = refl;
                only = write-OnlyAt t lwm ev;
                seeded = ap (λ (x : TenantVtime). x.seeded) (write-at t lwm) ∙ cu.0;
                current = ap (λ (x : TenantVtime). x.stale) (write-at t lwm) ∙ cu.1;
                held = ap (λ (x : TenantVtime). x.locked) (write-at t lwm) ∙ lk;
                stamped = rw (write-at t lwm) e;
                placed = rw (write-at t lwm) pl;
              })
        | inr (x, e) ↦
            rw (e, stamp_at)
              (
                record {
                  only = write-OnlyAt (unlocked t) lwm ev;
                  free = ap (λ (y : TenantVtime). y.locked) (write-at (unlocked t) lwm);
                  kept = keep pl (ap (λ (y : TenantVtime). y.vtime) (write-at (unlocked t) lwm));
                },
                inr (t.vtime, x, pl, e, refl),
              )
      ]
    where
      keep :
          {x : ℤ}
          → Placement hooks tn p (at a c.heap) c.lwm lwm t.vtime
          → x ≡ t.vtime
          → (x ≡ (at a c.heap).vtime) ⊎ (¬ IsCurrent (at a c.heap))
      keep (inl y) q = inl (q ∙ y.1)
      keep (inr y) q = inr y.0

record Touched (t u : TenantVtime) : Type 0 where
  fresh_mark : u.stale ≡ false
  same_lock : u.locked ≡ t.locked
  same_place : u.evicted ≡ t.evicted
  same_clock : u.vtime ≡ t.vtime
  same_age : u.ever_seeded ≡ t.ever_seeded
  current : (u.seeded ≡ true) ↔ IsCurrent t

touch-Touched : (t : TenantVtime) → Touched t (touch t)
unfolding touch
touch-Touched t = go t.stale refl
  where
    go :
        (b : Bool)
        → t.stale ≡ b
        → Touched t (
            if b
            then record t { touched = true; stale = false; seeded = false }
            else record t { touched = true })
    go true e = record {
      fresh_mark = refl;
      same_lock = refl;
      same_place = refl;
      same_clock = refl;
      same_age = refl;
      current = (λ h. cc, λ h. cc);
    }
    go false e = record {
      fresh_mark = e;
      same_lock = refl;
      same_place = refl;
      same_clock = refl;
      same_age = refl;
      current = (λ h. (h, e), λ h. h.0);
    }

module _ (hooks : Hooks) (tn p : String) (cost weight : ℤ) (a : ℕ) (c : VtimeCache)
    (inside : a < size c.heap) where
  seeded_outcome :
      (t : TenantVtime) (r : Result Error TenantVtime × Lwm)
      → Touched (at a c.heap) t
      → ¬ IsCurrent (at a c.heap)
      → SeedResult hooks tn p t c.lwm r
      → ReserveOutcome hooks tn p cost weight a c
          (stamp_seeded a t cost weight c r).1
          (stamp_seeded a t cost weight c r).0
  unfolding stamp_seeded unlocked
  seeded_outcome t (ok u, lwm) h n s =
      stamp_outcome a c inside hooks tn p cost weight u lwm
        (ap (λ (x : TenantVtime). x.evicted) s.result ∙ h.same_place)
        (ap (λ (x : TenantVtime). x.locked) s.result ∙ h.same_lock)
        (
          ap (λ (x : TenantVtime). x.seeded) s.result,
          ap (λ (x : TenantVtime). x.stale) s.result ∙ h.fresh_mark,
        )
        (inr (
          n,
          record {
            edge = s.edge;
            read = s.read;
            refreshed = aged s.refreshed;
            clock = ap (λ (x : TenantVtime). x.vtime) s.result;
          },
        ))
    where
      aged : Refreshes hooks p t c.lwm lwm → Refreshes hooks p (at a c.heap) c.lwm lwm
      aged (inl (e, q)) = inl (sym h.same_age ∙ e, q)
      aged (inr (e, q)) = inr (sym h.same_age ∙ e, q)
  seeded_outcome t (err e, lwm) h n s = (
    record {
      only = write-OnlyAt a c inside (unlocked t) lwm h.same_place;
      free = ap (λ (y : TenantVtime). y.locked) (write-at a c inside (unlocked t) lwm);
      kept = inr n;
    },
    inl (n, failed s),
  )
    where
      failed : SeedFailed hooks tn p t c.lwm lwm e → SeedFailed hooks tn p (at a c.heap) c.lwm lwm e
      failed (inl (x, y, z)) = inl (sym h.same_age ∙ x, y, z)
      failed (inr (inl (x, y), z)) = inr (inl (sym h.same_age ∙ x, y), z)
      failed (inr (inr (x, y), z)) = inr (inr (sym h.same_age ∙ x, y), z)

  -- On an entry of the heap, a reservation leaves a clock that is current where it is, and places
  -- any other at the later of the trailing edge, which is the seed hook's answer, or 0 without a
  -- hook, and the partition's frontier. Before the entry's first seed the frontier's hook is asked:
  -- a frontier that it finds is stored as the partition's, and no other changes. Its stamp is one
  -- stride after the clock, the lock stays held, and the clock does not move until the commit. A
  -- refused reservation reports the hook's error or that there is no next stamp; it frees the lock
  -- and leaves a current clock where it is. No other entry changes.
  pub reserve_locked-ReserveOutcome :
      ReserveOutcome hooks tn p cost weight a c
        (reserve_locked hooks tn p cost weight a c).1
        (reserve_locked hooks tn p cost weight a c).0
  unfolding reserve_locked
  reserve_locked-ReserveOutcome = elim (Bool-cases (touch (at a c.heap)).seeded) [
    | inl e ↦ rw e (
        stamp_outcome a c inside hooks tn p cost weight (touch (at a c.heap)) c.lwm h.same_place
          h.same_lock (e, h.fresh_mark) (inl (h.current.0 e, h.same_clock, refl)))
    | inr e ↦ rw e (
        seeded_outcome (touch (at a c.heap)) _ h (λ cu. true≢false (sym (h.current.1 cu) ∙ e))
          (seed-SeedResult hooks tn p (touch (at a c.heap)) c.lwm))
  ]
    where
      h : Touched (at a c.heap) (touch (at a c.heap))
      h = touch-Touched (at a c.heap)
