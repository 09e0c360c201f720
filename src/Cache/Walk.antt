-- ===== src/Cache/Walk.antt =====
-- The walk of Reconcile (invalidateAndEvict, vtimecache.go) and the invariant.
use mongoqueue.Base.{
  ℕ, ◌<◌, ◌≡◌, refl, ◌⊎◌, inl, inr, true, false, Bool-cases, none, some, [], ◌∷◌, arith, ◌∙◌, sym,
  ap, ◌≢◌, subst,
}
use mongoqueue.Cache.Table.{
  TimelineKey, TenantVtime, Heap, size, at, modify, Tenants, address, same_key,
}
use mongoqueue.Cache.{visit, walk, invalidate_and_evict, VtimeCache}
use mongoqueue.Cache.Inv.{Sound, Unused, size-modify, at-modify_self, at-modify_ne, Inv}
use native.Mathlib.Decide.{ℕ_discrete}
use mongoqueue.Cache.Lock.{IsBenign}

visit-kept : (t : TenantVtime) → (visit t).0 ≡ true → (visit t).1.evicted ≡ t.evicted
unfolding visit
visit-kept t e = ground arith

visit-dropped : (t : TenantVtime) → (visit t).0 ≡ false → (visit t).1.evicted ≡ true
unfolding visit
visit-dropped t e = ground arith

pub Sound-frame :
    (h : Heap) (ts : Tenants) (a : ℕ) (f : TenantVtime → TenantVtime)
    → Unused a ts
    → Sound h ts
    → Sound (modify a f h) ts
Sound-frame h [] a f u s = tt
Sound-frame h ((k, b) ∷ rest) a f u s = (
  rw size-modify s.0,
  rw (at-modify_ne a b f h (λ e. u.0 (sym e))) s.1,
  s.2,
  s.3,
  Sound-frame h rest a f u.1 s.4,
)

-- The heap and the map of the entries after one, once it was visited.
abbrev pub visited : ℕ → Heap → Heap
visited a h = modify a (λ _. (visit (at a h)).1) h

pub walk-size : (ts : Tenants) (h : Heap) → size (walk ts h).1 ≡ size h
unfolding walk
walk-size [] h = refl
walk-size ((k, a) ∷ rest) h = walk-size rest (visited a h) ∙ size-modify a _ h

walk-Unused : (ts : Tenants) (h : Heap) (b : ℕ) → Unused b ts → Unused b (walk ts h).0
unfolding walk
walk-Unused [] h b u = tt
walk-Unused ((k, a) ∷ rest) h b u = elim (Bool-cases (visit (at a h)).0) [
  | inl kept ↦ rw kept (u.0, walk-Unused rest (visited a h) b u.1)
  | inr gone ↦ rw gone (walk-Unused rest (visited a h) b u.1)
]

walk_frame : (ts : Tenants) (h : Heap) (b : ℕ) → Unused b ts → at b (walk ts h).1 ≡ at b h
unfolding walk
walk_frame [] h b u = refl
walk_frame ((k, a) ∷ rest) h b u = walk_frame rest (visited a h) b u.1 ∙ at-modify_ne a b _ h u.0

pub walk-address-none :
    (ts : Tenants) (h : Heap) (j : TimelineKey)
    → address j ts ≡ none
    → address j (walk ts h).0 ≡ none
unfolding walk
walk-address-none [] h j e = refl
walk-address-none ((k, a) ∷ rest) h j e = ground (arith, walk-address-none rest (visited a h) j)

-- The entry that was visited first, at the end of the walk.
pub walk_first :
    (k : TimelineKey) (a : ℕ) (rest : Tenants) (h : Heap)
    → Unused a rest
    → a < size h
    → at a (walk rest (visited a h)).1 ≡ (visit (at a h)).1
walk_first k a rest h u p = walk_frame rest (visited a h) a u ∙ at-modify_self a _ h p

pub walk-Sound : (ts : Tenants) (h : Heap) → Sound h ts → Sound (walk ts h).1 (walk ts h).0
unfolding walk
walk-Sound [] h s = tt
walk-Sound ((k, a) ∷ rest) h s = elim (Bool-cases (visit (at a h)).0) [
  | inl kept ↦ rw kept (
    rw walk-size s.0,
    rw (walk_first k a rest h s.2 s.0) (visit-kept (at a h) kept ∙ s.1),
    walk-Unused rest (visited a h) a s.2,
    walk-address-none rest (visited a h) k s.3,
    walk-Sound rest (visited a h) (Sound-frame h rest a _ s.2 s.4),
  )
  | inr gone ↦ rw gone (walk-Sound rest (visited a h) (Sound-frame h rest a _ s.2 s.4))
]

first_evicted :
    (k : TimelineKey) (a : ℕ) (rest : Tenants) (h : Heap)
    → Unused a rest
    → a < size h
    → (visit (at a h)).0 ≡ false
    → (at a (walk rest (visited a h)).1).evicted ≡ true
first_evicted k a rest h u p gone =
    ap (λ (t : TenantVtime). t.evicted) (walk_first k a rest h u p) ∙ visit-dropped (at a h) gone

-- An entry that the map no longer has is evicted, or was not in the map.
walk_orphaned :
    (ts : Tenants) (h : Heap) (b : ℕ)
    → Sound h ts
    → Unused b (walk ts h).0
    → Unused b ts ⊎ ((at b (walk ts h).1).evicted ≡ true)
unfolding walk
walk_orphaned [] h b s u = inl tt
walk_orphaned ((k, a) ∷ rest) h b s u = elim (Bool-cases (visit (at a h)).0) [
  | inl kept ↦
      let v : (a ≢ b) × Unused b (walk rest (visited a h)).0 = rw kept at u in
      drop_first v.0 (walk_orphaned rest (visited a h) b (Sound-frame h rest a _ s.2 s.4) v.1)
  | inr gone ↦ elim (ℕ_discrete a b) [
    | yes same ↦ inr (
        subst (λ x. (at x (walk rest (visited a h)).1).evicted ≡ true) same
          (first_evicted k a rest h s.2 s.0 gone))
    | no other ↦
        drop_first other
          (walk_orphaned rest (visited a h) b (Sound-frame h rest a _ s.2 s.4) (rw gone at u))
  ]
]
  where
    drop_first :
        a ≢ b
        → Unused b rest ⊎ ((at b (walk rest (visited a h)).1).evicted ≡ true)
        → ((a ≢ b) × Unused b rest) ⊎ ((at b (walk rest (visited a h)).1).evicted ≡ true)
    drop_first n (inl u) = inl (n, u)
    drop_first n (inr e) = inr e

walk-address :
    (ts : Tenants) (h : Heap) (k : TimelineKey) (a : ℕ)
    → Sound h ts
    → address k ts ≡ some a
    → (address k (walk ts h).0 ≡ some a) ⊎ ((at a (walk ts h).1).evicted ≡ true)
unfolding walk
walk-address [] h k a s e = cc
walk-address ((j, b) ∷ rest) h k a s e = elim (Bool-cases (same_key j k)) [
  | inl hit ↦ elim (Bool-cases (visit (at b h)).0) [
    | inl kept ↦ inl (ground (arith, hit, kept))
    | inr gone ↦ inr (
        subst (λ x. (at x (walk rest (visited b h)).1).evicted ≡ true) (ground (arith, hit))
          (first_evicted j b rest h s.2 s.0 gone))
  ]
  | inr miss ↦
      ground (arith, miss, walk-address rest (visited b h) k a (Sound-frame h rest b _ s.2 s.4))
]

-- A walk, between any two steps of a goroutine, keeps to what the lock loop needs.
pub invalidate_and_evict-IsBenign : IsBenign invalidate_and_evict
unfolding invalidate_and_evict
invalidate_and_evict-IsBenign = record {
  keeps = λ c v. record {
    sound = walk-Sound c.tenants c.heap v.sound;
    orphaned = λ b p u. went c v b p (walk_orphaned c.tenants c.heap b v.sound u);
  };
  same_entry = λ c k a v e. walk-address c.tenants c.heap k a v.sound e;
}
  where
    went :
        (c : VtimeCache)
        → Inv c
        → (b : ℕ) → b < size (walk c.tenants c.heap).1
        → Unused b c.tenants ⊎ ((at b (walk c.tenants c.heap).1).evicted ≡ true)
        → (at b (walk c.tenants c.heap).1).evicted ≡ true
    went c v b p (inl u) =
        ap (λ (t : TenantVtime). t.evicted) (walk_frame c.tenants c.heap b u)
        ∙ v.orphaned b (rw walk-size at p) u
    went c v b p (inr e) = e

-- A walk of Reconcile keeps the cache's invariant, and leaves the entry that a key goes to in the
-- map or evicts it.
pub walk_keeps :
    (c : VtimeCache) (k : TimelineKey) (a : ℕ)
    → Inv c
    → address k c.tenants ≡ some a
    → Inv (invalidate_and_evict c)
      × ((address k (invalidate_and_evict c).tenants ≡ some a)
          ⊎ ((at a (invalidate_and_evict c).heap).evicted ≡ true))
walk_keeps c k a v e =
    (invalidate_and_evict-IsBenign.keeps c v, invalidate_and_evict-IsBenign.same_entry c k a v e)
