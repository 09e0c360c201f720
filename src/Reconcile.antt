-- ===== src/Reconcile.antt =====
-- queue.go: Reconcile's loop over the partitions of the cache, and the walk after it.
pub mod Partitions
pub mod Refreshes
pub mod Marks
use mongoqueue.Base.{String, Option, none, some, List, [], ◌∷◌, Result, ok, err, Bool, true, false}
use mongoqueue.Errors.{Error, DriverError, driver, wrapped, join_errors}
use mongoqueue.Cache.{VtimeCache, Hooks, refresh_lwm, invalidate_and_evict, partitions}

-- The world at one partition of the loop: what other goroutines do to the cache before it, what
-- ctx.Err() says before the refresh, the reads of the refresh, and whether the context is dead
-- after a refresh that failed.
pub record Round : Type 0 where
  pub others : VtimeCache → VtimeCache
  pub dead_before : Option DriverError
  pub hooks : Hooks
  pub dead_after : Bool

-- What the rest of the loop adds to a refresh.
continued :
    Bool → Result Error (Unit {0}) → VtimeCache → List Error × VtimeCache → List Error × VtimeCache
continued dead (ok _) c rest = rest
continued true (err e) c rest = (wrapped "refresh LWM for partition" e ∷ [], c)
continued false (err e) c rest = (wrapped "refresh LWM for partition" e ∷ rest.0, rest.1)

refresh_all : (String → Round) → List String → VtimeCache → List Error × VtimeCache
unfolding continued
refresh_all world [] c = ([], c)
refresh_all world (p ∷ ps) c =
    let c' = (world p).others c in
    let (r, lwm') = refresh_lwm (world p).hooks p c'.lwm in
    let c'' : VtimeCache = record c' { lwm = lwm' } in
    let rest = refresh_all world ps c'' in
    elim (world p).dead_before [
      | some e ↦ (driver e ∷ [], c')
      | none ↦ continued (world p).dead_after r c'' rest
    ]

report : List Error → Result Error (Unit {0})
report errs = elim (join_errors errs) [ none ↦ ok tt | some e ↦ err (wrapped "reconcile" e) ]

-- `dead` is ctx.Err() at the start, `others` what happens between the loop and the walk.
pub reconcile :
    Option DriverError
    → (String → Round)
    → (VtimeCache → VtimeCache)
    → VtimeCache
    → Result Error (Unit {0}) × VtimeCache
unfolding refresh_all report
reconcile (some e) world others c = (err (wrapped "reconcile" (driver e)), c)
reconcile none world others c =
    let (errs, c') = refresh_all world (partitions c.tenants) c in
    (report errs, invalidate_and_evict (others c'))
