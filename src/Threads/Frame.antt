-- ===== src/Threads/Frame.antt =====
-- What a step may do to the parts of the cache that others rely on.
use mongoqueue.Base.{
  ℕ, ◌≡◌, refl, none, some, [], ◌∷◌, ◌++◌, arith, zero, suc, ap, subst, Option-cases, inl, inr,
}
use mongoqueue.Cache.Table.{TimelineKey, TenantVtime, fresh, Heap, at, modify, size, address, Lwm}
use mongoqueue.Cache.{VtimeCache, on_entry, lookup}
use mongoqueue.Cache.Inv.{Inv, on_entry-Inv, same_key_iff}
use mongoqueue.Cache.Lock.{lookup-Inv}

-- An entry with the same lock and the same mark of eviction.
pub record SameFlags (t u : TenantVtime) : Type 0 where
  pub same_locked : u.locked ≡ t.locked
  pub same_evicted : u.evicted ≡ t.evicted

-- The invariant and the map's keys are kept, and so are the flags of all entries.
pub record Calm (c d : VtimeCache) : Type 0 where
  pub inv : Inv d
  pub kept : (k : TimelineKey) (a : ℕ) → address k c.tenants ≡ some a → address k d.tenants ≡ some a
  pub flags : (a : ℕ) → SameFlags (at a c.heap) (at a d.heap)

-- A change of one entry reaches an address inside the heap, or none.
pub at-modify_cases :
    (a b : ℕ) (f : TenantVtime → TenantVtime) (h : Heap) (P : TenantVtime → Type 0)
    → P (at b h)
    → (a ≡ b → P (f (at b h)))
    → P (at b (modify a f h))
at-modify_cases a b f [] P p q = p
at-modify_cases zero zero f (t ∷ h) P p q = q refl
at-modify_cases zero (suc b) f (t ∷ h) P p q = p
at-modify_cases (suc a) zero f (t ∷ h) P p q = p
at-modify_cases (suc a) (suc b) f (t ∷ h) P p q = at-modify_cases a b f h P p (λ e. q (ap suc e))

pub on_entry-Calm :
    (a : ℕ) (f : TenantVtime → TenantVtime) (c : VtimeCache)
    → Inv c
    → SameFlags (at a c.heap) (f (at a c.heap))
    → Calm c (on_entry a f c)
on_entry-Calm a f c v s = record {
  inv = on_entry-Inv a f c s.same_evicted v;
  kept = λ k b e. e;
  flags = λ b.
      at-modify_cases a b f c.heap (SameFlags (at b c.heap))
        (record { same_locked = refl; same_evicted = refl })
        (λ e. subst (λ x. SameFlags (at x c.heap) (f (at x c.heap))) e s);
}

pub lwm-Calm : (c : VtimeCache) (l : Lwm) → Inv c → Calm c (record c { lwm = l })
lwm-Calm c l v = record {
  inv = record { sound = v.sound; orphaned = v.orphaned };
  kept = λ k a e. e;
  flags = λ a. record { same_locked = refl; same_evicted = refl };
}

pub Calm-refl : (c : VtimeCache) → Inv c → Calm c c
Calm-refl c v = lwm-Calm c c.lwm v

pub at-append_any : (b : ℕ) (h : Heap) → at b (h ++ fresh ∷ []) ≡ at b h
at-append_any zero [] = refl
at-append_any (suc b) [] = refl
at-append_any zero (t ∷ h) = refl
at-append_any (suc b) (t ∷ h) = at-append_any b h

pub lookup-Calm : (k : TimelineKey) (c : VtimeCache) → Inv c → Calm c (lookup k c).1
unfolding lookup
lookup-Calm k c v = elim (Option-cases (address k c.tenants)) [
  | inr (a, e) ↦ rw (e, lookup) (Calm-refl c v)
  | inl n ↦ record {
    inv = (lookup-Inv k c v).0;
    kept = λ j b e. rw (n, lookup) (other n j b e);
    flags =
        λ a. rw (n, lookup) (rw at-append_any (record { same_locked = refl; same_evicted = refl }));
  }
]
  where
    other :
        address k c.tenants ≡ none
        → (j : TimelineKey) (b : ℕ) → address j c.tenants ≡ some b
        → address j ((k, size c.heap) ∷ c.tenants) ≡ some b
    other n j b e = ground (arith, n, e, same_key_iff k j)
