-- ===== src/Threads.antt =====
-- The goroutines of a node that enqueue, and Reconcile beside them (vtimecache.go, queue.go): the
-- shared cache, where each goroutine stands, and the steps that they take in any order. A step is a
-- stretch of code between two points at which others may act. The cost and
-- weight of the job are those of the goroutine's call; what the hooks answer and whether the insert
-- succeeds is chosen at each step. A walk visits one
-- entry in a step, and any step may come between two visits, also a lookup, which the code's global
-- lock keeps out of a walk.
pub mod Evict
pub mod Frame
pub mod Good
pub mod Locks
pub mod Visit
pub mod Safety
pub mod Turns
pub mod Progress
pub mod Finish
pub mod Clock
pub mod Increasing
use mongoqueue.Base.{
  ℕ, Bool, some, [], ◌∷◌, String, Result, ok, err, ◌≡◌, if◌then◌else◌, eqb, true, false,
}
use mongoqueue.Base.Int.{ℤ, pos}
use mongoqueue.Errors.{Error}
use mongoqueue.VTime.{next_vstamp}
use mongoqueue.Cache.Table.{
  TimelineKey, TenantVtime, at, modify, Tenants, same_key, address, Lwm, lwm_put, lwm_prune,
}
use mongoqueue.Cache.{
  Reservation, VtimeCache, Hooks, on_entry, refresh_lwm, edge_of, place, unlocked, lookup,
  lock_entry, taken, orphan, commit, abort, visit, new_vtime_cache,
}

-- Within reserve and the insert, the timeline's lock being held: it was just taken; the
-- entry is marked as touched; the stale mark was applied; the frontier is warm; the trailing edge was read; the entry is seeded; the stamp was
-- reserved.
pub data Stage : Type 0 where
  entered : Stage
  touched : Stage
  marked : Stage
  warm : Stage
  edged : ℤ → Stage
  ready : Stage
  reserved : ℤ → Stage

-- Where a goroutine stands. In lockTimeline it wants a timeline, or has looked its entry up.
pub data Pc : Type 0 where
  idle : Pc
  wants : TimelineKey → Pc
  found : TimelineKey → ℕ → Pc
  inside : TimelineKey → ℕ → Stage → Pc

-- What a step gets from the world.
pub record Answers : Type 0 where
  pub hooks : Hooks
  pub inserted : Bool

-- The job's cost and its timeline's weight, as a call of enqueue brings them.
pub record Demand : Type 0 where
  pub cost : ℤ
  pub weight : ℤ

-- t.touched.Store(true)
unfoldable pub set_touched : TenantVtime → TenantVtime
set_touched t = record t { touched = true }

-- if t.stale.Swap(false) { t.seeded = false }
unfoldable pub apply_stale : TenantVtime → TenantVtime
apply_stale t = if t.stale then record t { stale = false; seeded = false } else t

-- An error of reserve: `t.mu.Unlock(); return nil, err`.
abbrev pub fails : ℕ → VtimeCache → Pc × VtimeCache
fails a c = (idle, on_entry a unlocked c)

unfoldable pub refreshed :
    TimelineKey → ℕ → VtimeCache → Result Error (Unit {0}) × Lwm → Pc × VtimeCache
refreshed k a c (ok _, lwm) = (inside k a warm, record c { lwm = lwm })
refreshed k a c (err e, lwm) = fails a (record c { lwm = lwm })

unfoldable pub edge_read : TimelineKey → ℕ → VtimeCache → Result Error ℤ → Pc × VtimeCache
edge_read k a c (ok edge) = (inside k a (edged edge), c)
edge_read k a c (err e) = fails a c

unfoldable pub placed : TimelineKey → ℕ → VtimeCache → Result Error TenantVtime → Pc × VtimeCache
placed k a c (ok t) = (inside k a ready, on_entry a (λ _. t) c)
placed k a c (err e) = fails a c

unfoldable pub stamped : TimelineKey → ℕ → VtimeCache → Result Error ℤ → Pc × VtimeCache
stamped k a c (ok v) = (inside k a (reserved v), c)
stamped k a c (err e) = fails a c

-- One step of the goroutine that holds the lock of the entry.
unfoldable pub advance : Answers → Demand → TimelineKey → ℕ → Stage → VtimeCache → Pc × VtimeCache
unfolding set_touched apply_stale refreshed edge_read placed stamped
advance w job k a entered c = (inside k a touched, on_entry a set_touched c)
advance w job k a touched c = (inside k a marked, on_entry a apply_stale c)
advance w job k a marked c =
    if (at a c.heap).seeded
    then (inside k a ready, c)
    else if (at a c.heap).ever_seeded
    then (inside k a warm, c)
    else refreshed k a c (refresh_lwm w.hooks k.partition c.lwm)
advance w job k a warm c = edge_read k a c (edge_of w.hooks k.tenant k.partition)
advance w job k a (edged edge) c = placed k a c (place (ok edge) k.partition (at a c.heap) c.lwm)
advance w job k a ready c = stamped k a c (next_vstamp (at a c.heap).vtime job.cost job.weight)
advance w job k a (reserved v) c =
    let r : Reservation = record { tenant = a; vstamp = v } in
    (idle, if w.inserted then commit r c else abort r c)

-- delete(c.tenants, key)
abbrev pub remove : TimelineKey → Tenants → Tenants
remove k [] = []
remove k ((j, b) ∷ rest) = if same_key j k then rest else (j, b) ∷ remove k rest

-- The walk's visit of the entry that a key goes to.
unfoldable pub visit_entry : TimelineKey → ℕ → VtimeCache → VtimeCache
visit_entry k a c =
    let (kept, t) = visit (at a c.heap) in
    record c {
      heap = modify a (λ _. t) c.heap;
      tenants = if kept then c.tenants else remove k c.tenants;
    }

pub record System : Type 0 where
  pub cache : VtimeCache
  pub pc : ℕ → Pc
  -- the demand of the call that a goroutine is in, or was last in
  pub call : ℕ → Demand

unfoldable pub moved {ℓ} : {A : Type ℓ} → ℕ → A → (ℕ → A) → ℕ → A
moved g p pc h = if eqb h g then p else pc h

abbrev pub go_to : ℕ → Pc × VtimeCache → System → System
go_to g (p, c) s = record s { cache = c; pc = moved g p s.pc }

-- Goroutine `g` starts an enqueue, looks its timeline up, takes the lock, finds that it took that of
-- an evicted entry, or goes on inside; Reconcile visits an entry, prunes frontiers or stores one.
pub data Step (s : System) : System → Type 0 where
  begins :
      (g : ℕ) (k : TimelineKey) (job : Demand)
      → s.pc g ≡ idle
      → Step s (record s { pc = moved g (wants k) s.pc; call = moved g job s.call })
  looks :
      (g : ℕ) (k : TimelineKey)
      → s.pc g ≡ wants k
      → Step s (go_to g (found k (lookup k s.cache).0, (lookup k s.cache).1) s)
  locks :
      (g : ℕ) (k : TimelineKey) (a : ℕ) (c : VtimeCache)
      → s.pc g ≡ found k a
      → lock_entry a s.cache ≡ taken c
      → Step s (go_to g (inside k a entered, c) s)
  retries :
      (g : ℕ) (k : TimelineKey) (a : ℕ)
      → s.pc g ≡ found k a
      → lock_entry a s.cache ≡ orphan
      → Step s (go_to g (wants k, s.cache) s)
  advances :
      (g : ℕ) (k : TimelineKey) (a : ℕ) (st : Stage) (w : Answers)
      → s.pc g ≡ inside k a st
      → Step s (go_to g (advance w (s.call g) k a st s.cache) s)
  visits :
      (k : TimelineKey) (a : ℕ)
      → address k s.cache.tenants ≡ some a
      → Step s (record s { cache = visit_entry k a s.cache })
  prunes :
      (keep : String → Bool)
      → Step s (record s { cache = record s.cache { lwm = lwm_prune keep s.cache.lwm } })
  stores :
      (p : String) (v : ℤ)
      → Step s (record s { cache = record s.cache { lwm = lwm_put p v s.cache.lwm } })

abbrev pub start : System
start = record {
  cache = new_vtime_cache;
  pc = λ _. idle;
  call = λ _. record { cost = pos 0; weight = pos 0 };
}

-- Any number of steps.
pub data Run (s : System) : System → Type 0 where
  here : Run s s
  next : {t u : System} → Run s t → Step t u → Run s u

abbrev pub Reach : System → Type 0
Reach s = Run start s
