-- ===== src/Examples/Timelines.antt =====
-- The locks, the walks and the reservations of a small cache.
use mongoqueue.Base.Int.{pos}
use mongoqueue.Base.{refl, some, ok, true, ◌∷◌, [], arith, ◌≡◌}
use mongoqueue.Cache.Inv.{Inv}
use mongoqueue.Cache.Lock.{AllBenign, IsLocked, lock_timeline-IsLocked}
use mongoqueue.Cache.{
  VtimeCache, lock_timeline, Hooks, invalidate_and_evict, lookup, reserve_locked, lock_entry,
  locked_at, walk, visit,
}
use mongoqueue.Cache.Idle.{Walked, invalidate_and_evict-Walked}
use mongoqueue.Cache.Outcome.{ReserveOutcome}
use mongoqueue.Cache.Reserve.{reserve_locked-ReserveOutcome}
use mongoqueue.Examples.{one_timeline, idle_entry, acme}
use mongoqueue.Cache.Walk.{invalidate_and_evict-IsBenign}
use mongoqueue.Cache.Table.{fresh}

pub one_timeline-Inv : Inv one_timeline
one_timeline-Inv = record {
  sound = (omega arith, refl, tt, refl, tt);
  orphaned = λ a p u. absurd (u.0 (omega arith));
}

pub walk_windows : AllBenign (invalidate_and_evict ∷ [])
walk_windows = (invalidate_and_evict-IsBenign, tt)

-- Between the lookup and the lock, a walk evicts the idle entry: the loop looks again, and locks a
-- new one.
abbrev pub relocked : VtimeCache
relocked = record {
  heap = record idle_entry { evicted = true } ∷ record fresh { locked = true } ∷ [];
  tenants = (acme, 1) ∷ [];
  lwm = [];
}

pub relocked_lem : lock_timeline (invalidate_and_evict ∷ []) acme one_timeline ≡ some (1, relocked)
unfolding lock_timeline lookup lock_entry locked_at invalidate_and_evict walk visit
relocked_lem = refl

lock_timeline-IsLocked_example : IsLocked acme 1 relocked
lock_timeline-IsLocked_example =
    lock_timeline-IsLocked (invalidate_and_evict ∷ []) acme one_timeline relocked 1 one_timeline-Inv
      walk_windows relocked_lem

invalidate_and_evict-Walked_example : Walked acme 0 one_timeline (invalidate_and_evict one_timeline)
invalidate_and_evict-Walked_example =
    invalidate_and_evict-Walked one_timeline acme 0 one_timeline-Inv refl

-- The database has a pending job of the timeline at 1,000.
abbrev reads_acme : Hooks
reads_acme = record {
  seed_hook = some (λ t p. ok (pos 1_000));
  lwm_hook = some (λ p. ok (pos 700, true));
}

reserve_locked-ReserveOutcome_example :
    ReserveOutcome reads_acme "acme" "default"
      (pos 2)
      (pos 1)
      1
      relocked
      (reserve_locked reads_acme "acme" "default" (pos 2) (pos 1) 1 relocked).1
      (reserve_locked reads_acme "acme" "default" (pos 2) (pos 1) 1 relocked).0
reserve_locked-ReserveOutcome_example =
    reserve_locked-ReserveOutcome reads_acme "acme" "default" (pos 2) (pos 1) 1 relocked
      (omega arith)
