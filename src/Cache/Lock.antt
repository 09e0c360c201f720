-- ===== src/Cache/Lock.antt =====
-- lockTimeline (vtimecache.go): its lookups and locks, and what other goroutines may do in between.
use mongoqueue.Base.{
  ℕ, ◌<◌, ◌≡◌, ◌⊎◌, inl, inr, true, none, some, List, [], ◌∷◌, ◌++◌, arith, ap, eq_refl,
  Option-cases, refl, false, true≢false, subst, sym, ◌∙◌, Option,
}
use mongoqueue.Cache.Table.{TimelineKey, TenantVtime, fresh, Heap, size, at, Tenants, address}
use mongoqueue.Cache.{
  VtimeCache, lookup, lock_entry, lock_timeline, taken, locked_at, on_entry, Attempt, waits, orphan,
}
use mongoqueue.Cache.Inv.{
  Inv, Sound, Unused, size-append, at-append_old, at-append_new, on_entry-Inv, at-modify_self,
  address-live,
}

Sound-Unused : (h : Heap) (ts : Tenants) → Sound h ts → Unused (size h) ts
Sound-Unused h [] s = tt
Sound-Unused h ((k, a) ∷ rest) s = (ground (arith, s.0), Sound-Unused h rest s.4)

Sound-append : (h : Heap) (ts : Tenants) → Sound h ts → Sound (h ++ fresh ∷ []) ts
Sound-append h [] s = tt
Sound-append h ((k, a) ∷ rest) s = (
  rw size-append (omega (arith, s.0)),
  rw (at-append_old a h s.0) s.1,
  s.2,
  s.3,
  Sound-append h rest s.4,
)

pub lookup-Inv :
    (k : TimelineKey) (c : VtimeCache)
    → Inv c
    → Inv (lookup k c).1 × (address k (lookup k c).1.tenants ≡ some (lookup k c).0)
unfolding lookup
lookup-Inv k c v = elim (Option-cases (address k c.tenants)) [
  | inr (a, e) ↦ rw (e, lookup) (v, e)
  | inl n ↦ rw (n, lookup) (added n, found)
]
  where
    added :
        address k c.tenants ≡ none
        → Inv (record c { heap = c.heap ++ fresh ∷ []; tenants = (k, size c.heap) ∷ c.tenants })
    added n = record {
      sound = (
        rw size-append (omega arith),
        ap (λ (t : TenantVtime). t.evicted) (at-append_new c.heap),
        Sound-Unused c.heap c.tenants v.sound,
        n,
        Sound-append c.heap c.tenants v.sound,
      );
      orphaned = λ a p u.
          let old : a < size c.heap = omega (arith, size-append c.heap, u.0) in
          rw (at-append_old a c.heap old) (v.orphaned a old u.1);
    }

    found : address k ((k, size c.heap) ∷ c.tenants) ≡ some (size c.heap)
    found = ground (arith, eq_refl k.tenant, eq_refl k.partition)

-- What the other goroutines may do between a lookup and a lock: keep the invariant, and leave a
-- key's entry in the map or evict it.
pub record IsBenign (w : VtimeCache → VtimeCache) : Type 0 where
  pub keeps : (c : VtimeCache) → Inv c → Inv (w c)
  pub same_entry :
      (c : VtimeCache) (k : TimelineKey) (a : ℕ)
      → Inv c
      → address k c.tenants ≡ some a
      → (address k (w c).tenants ≡ some a) ⊎ ((at a (w c).heap).evicted ≡ true)

abbrev pub AllBenign : List (VtimeCache → VtimeCache) → Type 0
AllBenign [] = Unit {0}
AllBenign (w ∷ ws) = IsBenign w × AllBenign ws

-- The holder of a timeline's lock.
pub record IsLocked (k : TimelineKey) (a : ℕ) (c : VtimeCache) : Type 0 where
  pub inv : Inv c
  pub mapped : address k c.tenants ≡ some a
  pub held : (at a c.heap).locked ≡ true

pub lock_entry-taken :
    (a : ℕ) (c d : VtimeCache)
    → lock_entry a c ≡ taken d
    → ((at a c.heap).evicted ≡ false) × (on_entry a (λ u. record u { locked = true }) c ≡ d)
unfolding lock_entry
lock_entry-taken a c d e = (ground arith, ground arith)

lock-IsLocked :
    (k : TimelineKey) (a : ℕ) (c d : VtimeCache)
    → Inv c
    → (address k c.tenants ≡ some a) ⊎ ((at a c.heap).evicted ≡ true)
    → lock_entry a c ≡ taken d
    → IsLocked k a d
lock-IsLocked k a c d v (inr gone) e = absurd (true≢false (sym gone ∙ (lock_entry-taken a c d e).0))
lock-IsLocked k a c d v (inl m) e = subst (IsLocked k a) (lock_entry-taken a c d e).1 (record {
  inv = on_entry-Inv a _ c refl v;
  mapped = m;
  held =
      ap (λ (t : TenantVtime). t.locked)
        (at-modify_self a (λ u. record u { locked = true }) c.heap
          (address-live c.heap c.tenants k a v.sound m).0);
})

locked_at-some :
    (b : ℕ) (r : Attempt) (again : Option (ℕ × VtimeCache)) (a : ℕ) (d : VtimeCache)
    → locked_at b r again ≡ some (a, d)
    → ((b ≡ a) × (r ≡ taken d)) ⊎ (again ≡ some (a, d))
unfolding locked_at
locked_at-some b (taken c) again a d e = inl (cc, cc)
locked_at-some b waits again a d e = cc
locked_at-some b orphan again a d e = inr e

-- From a cache with the invariant, and with windows that keep to IsBenign, the goroutine that gets
-- past lockTimeline's loop holds the lock of the entry that the map has for its key, and the
-- invariant holds.
pub lock_timeline-IsLocked :
    (windows : List (VtimeCache → VtimeCache)) (k : TimelineKey) (c d : VtimeCache) (a : ℕ)
    → Inv c
    → AllBenign windows
    → lock_timeline windows k c ≡ some (a, d)
    → IsLocked k a d
unfolding lock_timeline
lock_timeline-IsLocked [] k c d a v b e = elim (locked_at-some _ _ none a d e) [
  | inl (same, t) ↦
      subst (λ x. IsLocked k x d) same
        (lock-IsLocked k _ _ d (lookup-Inv k c v).0 (inl (lookup-Inv k c v).1) t)
  | inr n ↦ cc
]
lock_timeline-IsLocked (w ∷ ws) k c d a v b e =
    elim (locked_at-some _ _ (lock_timeline ws k (w (lookup k c).1)) a d e) [
      | inl (same, t) ↦
          subst (λ x. IsLocked k x d) same
            (lock-IsLocked k _ _ d (b.0.keeps _ (lookup-Inv k c v).0)
              (b.0.same_entry _ k _ (lookup-Inv k c v).0 (lookup-Inv k c v).1) t)
      | inr n ↦
          lock_timeline-IsLocked ws k (w (lookup k c).1) d a (b.0.keeps _ (lookup-Inv k c v).0) b.1
            n
    ]
