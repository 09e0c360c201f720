-- ===== src/Cache/Exclusive.antt =====
-- The holder of a timeline's lock, and the goroutines that want it (vtimecache.go).
use mongoqueue.Base.{ℕ, refl, none, some, true, ◌∷◌, subst, List, ◌≡◌, arith, [], ap, ◌∙◌, ◌||◌}
use mongoqueue.Cache.Table.{TimelineKey, TenantVtime, at, address}
use mongoqueue.Cache.{
  VtimeCache, lookup, lock_entry, waits, lock_timeline, locked_at, invalidate_and_evict,
}
use mongoqueue.Cache.Lock.{IsLocked}
use mongoqueue.Cache.Walk.{walk_keeps}
use mongoqueue.Cache.Idle.{Fate, invalidate_and_evict-Walked}

-- While a goroutine holds a timeline's lock, a walk of Reconcile leaves it the holder of the entry
-- that the map has for the timeline's key.
pub walk_keeps_lock :
    (k : TimelineKey) (a : ℕ) (c : VtimeCache)
    → IsLocked k a c
    → IsLocked k a (invalidate_and_evict c)
walk_keeps_lock k a c h = record {
  inv = (walk_keeps c k a h.inv h.mapped).0;
  mapped = kept.0;
  held = ap (λ (t : TenantVtime). t.locked) kept.1 ∙ h.held;
}
  where
    in_use : ((at a c.heap).touched || (at a c.heap).locked) ≡ true
    in_use = ground (arith, h.held)

    kept : Fate true k a c (invalidate_and_evict c)
    kept =
        subst (λ b. Fate b k a c (invalidate_and_evict c)) in_use
          (invalidate_and_evict-Walked c k a h.inv h.mapped).fate

-- What other goroutines do while one holds the lock: it stays the holder.
abbrev pub AllKeepLock : TimelineKey → ℕ → List (VtimeCache → VtimeCache) → Type 0
AllKeepLock k a [] = Unit {0}
AllKeepLock k a (w ∷ ws) =
    ((c : VtimeCache) → IsLocked k a c → IsLocked k a (w c)) × AllKeepLock k a ws

lookup-mapped :
    (k : TimelineKey) (a : ℕ) (c : VtimeCache) → address k c.tenants ≡ some a → lookup k c ≡ (a, c)
unfolding lookup
lookup-mapped k a c e = rw (e, lookup) refl

lock_entry-waits : (a : ℕ) (c : VtimeCache) → (at a c.heap).locked ≡ true → lock_entry a c ≡ waits
unfolding lock_entry
lock_entry-waits a c e = ground (arith, e)

-- While a goroutine holds a timeline's lock, and the windows leave it the holder, no other gets
-- past lockTimeline on that timeline.
pub lock_timeline-excluded :
    (windows : List (VtimeCache → VtimeCache)) (k : TimelineKey) (a : ℕ) (c : VtimeCache)
    → AllKeepLock k a windows
    → IsLocked k a c
    → lock_timeline windows k c ≡ none
unfolding lock_timeline locked_at
lock_timeline-excluded [] k a c b h =
    rw (lookup-mapped k a c h.mapped) (rw (lock_entry-waits a c h.held) refl)
lock_timeline-excluded (w ∷ ws) k a c b h =
    rw (lookup-mapped k a c h.mapped) (rw (lock_entry-waits a (w c) (b.0 c h).held) refl)
