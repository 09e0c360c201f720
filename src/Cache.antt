-- ===== src/Cache.antt =====
-- vtimecache.go: the node-local cache of virtual times. The entries are objects of their own, which
-- a goroutine may hold after the map has dropped them; so the map goes to addresses of a heap. The
-- order of a map's entries is that of a list, where Go leaves it open.
pub mod Table
pub mod Inv
pub mod Lock
pub mod Walk
pub mod Idle
pub mod Outcome
pub mod Seed
pub mod Reserve
pub mod Settle
pub mod Exclusive
use mongoqueue.Base.{
  ℕ, String, Bool, true, false, Option, none, some, List, [], ◌∷◌, Result, ok, err, if◌then◌else◌,
}
use mongoqueue.Base.Int.{ℤ, pos, max_ℤ}
use mongoqueue.Errors.{Error, wrapped}
use mongoqueue.VTime.{next_vstamp}
use Table.{
  TimelineKey, TenantVtime, Heap, at, modify, allocate, Tenants, address, Lwm, lwm_get, lwm_put,
  lwm_prune, has_partition,
}

pub record VtimeCache : Type 0 where
  pub heap : Heap
  pub tenants : Tenants
  pub lwm : Lwm

abbrev pub new_vtime_cache : VtimeCache
new_vtime_cache = record { heap = []; tenants = []; lwm = [] }

-- seedHook and lwmHook, `none` for nil. A hook reads the database: these are its answers at the
-- time of the call.
pub record Hooks : Type 0 where
  pub seed_hook : Option (String → String → Result Error ℤ)
  pub lwm_hook : Option (String → Result Error (ℤ × Bool))

-- Change the entry at an address.
abbrev pub on_entry : ℕ → (TenantVtime → TenantVtime) → VtimeCache → VtimeCache
on_entry a f c = record c { heap = modify a f c.heap }

unfoldable pub store_lwm : String → Result Error (ℤ × Bool) → Lwm → Result Error (Unit {0}) × Lwm
store_lwm partition (ok (v, true)) lwm = (ok tt, lwm_put partition v lwm)
store_lwm partition (ok (v, false)) lwm = (ok tt, lwm)
store_lwm partition (err e) lwm = (err e, lwm)

unfoldable pub refresh_lwm : Hooks → String → Lwm → Result Error (Unit {0}) × Lwm
unfolding store_lwm
refresh_lwm hooks partition lwm = elim hooks.lwm_hook [
  | none ↦ (ok tt, lwm)
  | some hook ↦ store_lwm partition (hook partition) lwm
]

abbrev pub lwm_for : String → Lwm → ℤ
lwm_for partition lwm = lwm_get partition lwm

unfoldable pub edge_of : Hooks → String → String → Result Error ℤ
edge_of hooks tenant partition = elim hooks.seed_hook [
  | none ↦ ok (pos 0)
  | some hook ↦ hook tenant partition
]

-- `t.vtime = max(edge, lwm)`, once both reads are done.
unfoldable pub place : Result Error ℤ → String → TenantVtime → Lwm → Result Error TenantVtime
place (ok edge) partition t lwm =
    ok (record t { vtime = max_ℤ edge (lwm_for partition lwm); seeded = true; ever_seeded = true })
place (err e) partition t lwm = err e

-- What is left of seed after the cold refresh.
unfoldable pub seed_edge :
    Hooks
    → String
    → String
    → TenantVtime
    → Result Error (Unit {0}) × Lwm
    → Result Error TenantVtime × Lwm
unfolding edge_of place
seed_edge hooks tenant partition t (ok _, lwm) =
    (place (edge_of hooks tenant partition) partition t lwm, lwm)
seed_edge hooks tenant partition t (err e, lwm) = (err e, lwm)

-- `refreshed` is what the cold refresh answers; it is made only if the entry was never seeded.
unfoldable pub seed : Hooks → String → String → TenantVtime → Lwm → Result Error TenantVtime × Lwm
unfolding seed_edge
seed hooks tenant partition t lwm =
    seed_edge hooks tenant partition t
      (if t.ever_seeded then (ok tt, lwm) else refresh_lwm hooks partition lwm)

-- touched.Store(true); if stale.Swap(false) { seeded = false }
unfoldable pub touch : TenantVtime → TenantVtime
touch t =
    if t.stale
    then record t { touched = true; stale = false; seeded = false }
    else record t { touched = true }

pub record Reservation : Type 0 where
  pub tenant : ℕ
  pub vstamp : ℤ

unfoldable pub unlocked : TenantVtime → TenantVtime
unlocked t = record t { locked = false }

-- The stamp, at an entry that is seeded.
unfoldable pub stamp_at :
    ℕ → TenantVtime → ℤ → ℤ → VtimeCache → Result Error Reservation × VtimeCache
unfolding unlocked
stamp_at a t cost weight c = elim (next_vstamp t.vtime cost weight) [
  | ok v ↦ (ok (record { tenant = a; vstamp = v }), on_entry a (λ _. t) c)
  | err e ↦ (err (wrapped "stamp" e), on_entry a (λ _. unlocked t) c)
]

-- The stamp after a seed; a failed seed leaves the entry unseeded and unlocks it.
unfoldable pub stamp_seeded :
    ℕ
    → TenantVtime
    → ℤ
    → ℤ
    → VtimeCache
    → Result Error TenantVtime × Lwm
    → Result Error Reservation × VtimeCache
unfolding unlocked stamp_at
stamp_seeded a t cost weight c (ok t', lwm) = stamp_at a t' cost weight (record c { lwm = lwm })
stamp_seeded a t cost weight c (err e, lwm) =
    (err e, on_entry a (λ _. unlocked t) (record c { lwm = lwm }))

-- reserve, from where the timeline's lock is held.
unfoldable pub reserve_locked :
    Hooks → String → String → ℤ → ℤ → ℕ → VtimeCache → Result Error Reservation × VtimeCache
unfolding touch stamp_at stamp_seeded
reserve_locked hooks tenant partition cost weight a c =
    let t = touch (at a c.heap) in
    if t.seeded
    then stamp_at a t cost weight c
    else stamp_seeded a t cost weight c (seed hooks tenant partition t c.lwm)

-- The lookup of lockTimeline, under the global lock.
unfoldable pub lookup : TimelineKey → VtimeCache → ℕ × VtimeCache
lookup key c = elim (address key c.tenants) [
  | some a ↦ (a, c)
  | none ↦
      let (a, heap') = allocate c.heap in
      (a, record c { heap = heap'; tenants = (key, a) ∷ c.tenants })
]

-- How taking an entry's lock ends: it is held by another, it was evicted, or it is taken.
pub data Attempt : Type 0 where
  waits orphan : Attempt
  taken : VtimeCache → Attempt

unfoldable pub lock_entry : ℕ → VtimeCache → Attempt
lock_entry a c =
    let t = at a c.heap in
    if t.locked
    then waits
    else if t.evicted
    then orphan
    else taken (on_entry a (λ u. record u { locked = true }) c)

-- One round of the loop, with what the next rounds come to.
unfoldable pub locked_at : ℕ → Attempt → Option (ℕ × VtimeCache) → Option (ℕ × VtimeCache)
locked_at a (taken c) again = some (a, c)
locked_at a waits again = none
locked_at a orphan again = again

-- lockTimeline: each window is what the other goroutines do between the lookup and the lock of one
-- round of its loop; after the last the cache is quiet. `none` where another goroutine holds the
-- lock, and this one waits.
unfoldable pub lock_timeline :
    List (VtimeCache → VtimeCache) → TimelineKey → VtimeCache → Option (ℕ × VtimeCache)
unfolding locked_at
lock_timeline [] key c = let (a, c') = lookup key c in locked_at a (lock_entry a c') none
lock_timeline (window ∷ windows) key c =
    let (a, c') = lookup key c in
    let c'' = window c' in locked_at a (lock_entry a c'') (lock_timeline windows key c'')

unfoldable pub commit : Reservation → VtimeCache → VtimeCache
commit r = on_entry r.tenant (λ t. record t { vtime = r.vstamp; locked = false })

unfoldable pub abort : Reservation → VtimeCache → VtimeCache
unfolding unlocked
abort r = on_entry r.tenant unlocked

-- One entry of the walk: whether the map keeps it, and what becomes of it.
unfoldable pub visit : TenantVtime → Bool × TenantVtime
visit t =
    if t.touched
    then (true, record t { touched = false; stale = true })
    else if t.locked
    then (true, record t { stale = true })
    else (false, record t { evicted = true })

unfoldable pub walk : Tenants → Heap → Tenants × Heap
unfolding visit
walk [] heap = ([], heap)
walk ((key, a) ∷ rest) heap =
    let (kept, t) = visit (at a heap) in
    let (rest', heap') = walk rest (modify a (λ _. t) heap) in
    (if kept then (key, a) ∷ rest' else rest', heap')

unfoldable pub invalidate_and_evict : VtimeCache → VtimeCache
invalidate_and_evict c =
    let (tenants', heap') = walk c.tenants c.heap in
    record {
      heap = heap';
      tenants = tenants';
      lwm = lwm_prune (λ p. has_partition p tenants') c.lwm;
    }

-- The distinct partitions in the map.
unfoldable pub partitions : Tenants → List String
partitions [] = []
partitions ((key, a) ∷ rest) =
    let out = partitions rest in
    if has_partition key.partition rest then out else key.partition ∷ out
