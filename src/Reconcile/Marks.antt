-- ===== src/Reconcile/Marks.antt =====
-- A pass of Reconcile in any world: reads fail, the context dies, others use the cache.
use mongoqueue.Base.{
  String, ℕ, List, [], ◌∷◌, Option, none, some, ok, err, true, false, Bool, Result, ◌≡◌, refl, inl,
  inr, sym, ◌∙◌, ap, Option-cases,
}
use mongoqueue.Errors.{Error, DriverError, driver, wrapped}
use mongoqueue.Cache.Table.{TimelineKey, TenantVtime, address, at}
use mongoqueue.Cache.{partitions, VtimeCache, invalidate_and_evict, refresh_lwm}
use mongoqueue.Cache.Inv.{Inv}
use mongoqueue.Cache.Walk.{walk-address-none, invalidate_and_evict-IsBenign}
use mongoqueue.Cache.Idle.{Fate, invalidate_and_evict-Walked}
use mongoqueue.Reconcile.{Round, refresh_all, continued, reconcile}

-- Every timeline in the map is marked stale: its next reserve seeds it again.
abbrev pub AllStale : VtimeCache → Type 0
AllStale c = (k : TimelineKey) (a : ℕ) → address k c.tenants ≡ some a → (at a c.heap).stale ≡ true

some_eq : {a b : ℕ} → some a ≡ some b → a ≡ b
some_eq e = cc

none_ne : {a : ℕ} → none ≡ some a → ⊥
none_ne e = cc

evicted-none :
    (c : VtimeCache) (k : TimelineKey)
    → address k c.tenants ≡ none
    → address k (invalidate_and_evict c).tenants ≡ none
unfolding invalidate_and_evict
evicted-none c k e = walk-address-none c.tenants c.heap k e

Fate-stale :
    (b : Bool) (k : TimelineKey) (a x : ℕ) (c d : VtimeCache)
    → Fate b k x c d
    → address k d.tenants ≡ some a
    → (at a d.heap).stale ≡ true
Fate-stale true k a x c d f e =
    ap (λ y. (at y d.heap).stale) (some_eq (sym e ∙ f.0)) ∙ ap (λ (t : TenantVtime). t.stale) f.1
Fate-stale false k a x c d f e = absurd (none_ne (sym f.0 ∙ e))

invalidate_and_evict-AllStale : (c : VtimeCache) → Inv c → AllStale (invalidate_and_evict c)
invalidate_and_evict-AllStale c v k a e = elim (Option-cases (address k c.tenants)) [
  | inl n ↦ absurd (none_ne (sym (evicted-none c k n) ∙ e))
  | inr (x, m) ↦
      Fate-stale _ k a x c (invalidate_and_evict c) (invalidate_and_evict-Walked c k x v m).fate e
]

module _ (world : String → Round)
    (calm : (p : String) (c : VtimeCache) → Inv c → Inv ((world p).others c)) where
  continued-Inv :
      (dead : Bool) (r : Result Error (Unit {0})) (c : VtimeCache) (rest : List Error × VtimeCache)
      → Inv c
      → Inv rest.1
      → Inv (continued dead r c rest).1
  unfolding continued
  continued-Inv dead (ok _) c rest v w = w
  continued-Inv true (err e) c rest v w = v
  continued-Inv false (err e) c rest v w = w

  refresh_all-Inv : (ps : List String) (c : VtimeCache) → Inv c → Inv (refresh_all world ps c).1
  unfolding refresh_all
  refresh_all-Inv [] c v = v
  refresh_all-Inv (p ∷ ps) c v = elim (Option-cases (world p).dead_before) [
    | inl n ↦
        rw (n, refresh_all)
          (continued-Inv (world p).dead_after _ next _ warm (refresh_all-Inv ps next warm))
    | inr (e, q) ↦ rw (q, refresh_all) met
  ]
    where
      c' : VtimeCache
      c' = (world p).others c

      met : Inv c'
      met = calm p c v

      next : VtimeCache
      next = record c' { lwm = (refresh_lwm (world p).hooks p c'.lwm).1 }

      warm : Inv next
      warm = record { sound = met.sound; orphaned = met.orphaned }

-- What Reconcile returns and leaves, by what its context says at the start.
abbrev pub MarkOutcome :
    Option DriverError → VtimeCache → Result Error (Unit {0}) × VtimeCache → Type 0
MarkOutcome (some e) c (r, c') = (r ≡ err (wrapped "reconcile" (driver e))) × (c' ≡ c)
MarkOutcome none c (r, c') = Inv c' × AllStale c'

-- On a context that is dead at the start, Reconcile returns its error and changes nothing. On any
-- other, from a cache with the invariant and with others that keep it, Reconcile leaves a cache
-- with the invariant in which every timeline is marked stale, so that its next reserve seeds it:
-- also if reads of frontiers fail, or the context dies in the middle of the pass.
pub reconcile-MarkOutcome :
    (start : Option DriverError) (world : String → Round) (others : VtimeCache → VtimeCache)
    (c : VtimeCache)
    → ((p : String) (d : VtimeCache) → Inv d → Inv ((world p).others d))
    → ((d : VtimeCache) → Inv d → Inv (others d))
    → Inv c
    → MarkOutcome start c (reconcile start world others c)
unfolding reconcile
reconcile-MarkOutcome (some e) world others c calm calm' v = (refl, refl)
reconcile-MarkOutcome none world others c calm calm' v = (
  invalidate_and_evict-IsBenign.keeps (others out) w,
  invalidate_and_evict-AllStale (others out) w,
)
  where
    out : VtimeCache
    out = (refresh_all world (partitions c.tenants) c).1

    w : Inv (others out)
    w = calm' out (refresh_all-Inv world calm (partitions c.tenants) c v)
