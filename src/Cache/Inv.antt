-- ===== src/Cache/Inv.antt =====
-- The cache's invariant: the map goes to distinct entries that are not evicted, and every entry
-- outside the map is evicted. And what a step may do to it.
use mongoqueue.Base.{
  ℕ, zero, suc, ◌<◌, ◌≡◌, ◌≢◌, refl, true, false, none, some, [], ◌∷◌, ◌++◌, arith, eq_iff, ap, ◌∙◌,
  subst, sym,
}
use mongoqueue.Cache.Table.{
  TimelineKey, TenantVtime, fresh, same_key, Heap, size, at, modify, Tenants, address,
}
use mongoqueue.Cache.{VtimeCache, on_entry}
use native.Mathlib.Decide.{ℕ_discrete}

-- Heap laws.
pub size-modify : (a : ℕ) (f : TenantVtime → TenantVtime) (h : Heap) → size (modify a f h) ≡ size h
size-modify a f [] = refl
size-modify zero f (t ∷ h) = refl
size-modify (suc a) f (t ∷ h) = ap suc (size-modify a f h)

pub at-modify_self :
    (a : ℕ) (f : TenantVtime → TenantVtime) (h : Heap)
    → a < size h
    → at a (modify a f h) ≡ f (at a h)
at-modify_self a f [] p = elim p [ ]
at-modify_self zero f (t ∷ h) p = refl
at-modify_self (suc a) f (t ∷ h) p = at-modify_self a f h (omega arith)

pub at-modify_ne :
    (a b : ℕ) (f : TenantVtime → TenantVtime) (h : Heap) → a ≢ b → at b (modify a f h) ≡ at b h
at-modify_ne a b f [] n = refl
at-modify_ne zero zero f (t ∷ h) n = absurd (n refl)
at-modify_ne zero (suc b) f (t ∷ h) n = refl
at-modify_ne (suc a) zero f (t ∷ h) n = refl
at-modify_ne (suc a) (suc b) f (t ∷ h) n = at-modify_ne a b f h (omega arith)

pub size-append : (h : Heap) → size (h ++ fresh ∷ []) ≡ suc (size h)
size-append [] = refl
size-append (t ∷ h) = ap suc (size-append h)

pub at-append_new : (h : Heap) → at (size h) (h ++ fresh ∷ []) ≡ fresh
at-append_new [] = refl
at-append_new (t ∷ h) = at-append_new h

pub at-append_old : (a : ℕ) (h : Heap) → a < size h → at a (h ++ fresh ∷ []) ≡ at a h
at-append_old a [] p = elim p [ ]
at-append_old zero (t ∷ h) p = refl
at-append_old (suc a) (t ∷ h) p = at-append_old a h (omega arith)

pub same_key_iff : (k j : TimelineKey) → same_key k j ≡ true → k ≡ j
same_key_iff k j e = ground (arith, eq_iff k.tenant j.tenant, eq_iff k.partition j.partition)

-- No key of the map goes to an address.
abbrev pub Unused : ℕ → Tenants → Type 0
Unused a [] = Unit {0}
Unused a ((k, b) ∷ rest) = (b ≢ a) × Unused a rest

abbrev pub Sound : Heap → Tenants → Type 0
Sound h [] = Unit {0}
Sound h ((k, a) ∷ rest) =
    (a < size h)
    × ((at a h).evicted ≡ false)
    × Unused a rest
    × (address k rest ≡ none)
    × Sound h rest

pub record Inv (c : VtimeCache) : Type 0 where
  pub sound : Sound c.heap c.tenants
  pub orphaned : (a : ℕ) → a < size c.heap → Unused a c.tenants → (at a c.heap).evicted ≡ true

-- An entry that a key goes to is on the heap and is not evicted.
pub address-live :
    (h : Heap) (ts : Tenants) (k : TimelineKey) (a : ℕ)
    → Sound h ts
    → address k ts ≡ some a
    → (a < size h) × ((at a h).evicted ≡ false)
address-live h [] k a s e = cc
address-live h ((j, b) ∷ rest) k a s e = ground (arith, address-live h rest k a s.4)

-- Two keys never share an entry.
pub Unused-address : (ts : Tenants) (k : TimelineKey) (a : ℕ) → Unused a ts → address k ts ≢ some a
Unused-address [] k a u e = cc
Unused-address ((j, b) ∷ rest) k a u e = ground (arith, Unused-address rest k a u.1)

pub kept_evicted :
    (h : Heap) (a b : ℕ) (f : TenantVtime → TenantVtime)
    → (f (at a h)).evicted ≡ (at a h).evicted
    → b < size h
    → (at b (modify a f h)).evicted ≡ (at b h).evicted
kept_evicted h a b f e p = elim (ℕ_discrete a b) [
  | yes same ↦
      subst (λ x. (at x (modify a f h)).evicted ≡ (at x h).evicted) same
        (rw (at-modify_self a f h (subst (λ x. x < size h) (sym same) p)) e)
  | no other ↦ rw (at-modify_ne a b f h other)
]

-- A change of one entry that leaves `evicted` as it is.
pub Sound-modify :
    (h : Heap) (ts : Tenants) (a : ℕ) (f : TenantVtime → TenantVtime)
    → (f (at a h)).evicted ≡ (at a h).evicted
    → Sound h ts
    → Sound (modify a f h) ts
Sound-modify h [] a f e s = tt
Sound-modify h ((k, b) ∷ rest) a f e s =
    (rw size-modify s.0, kept_evicted h a b f e s.0 ∙ s.1, s.2, s.3, Sound-modify h rest a f e s.4)

pub on_entry-Inv :
    (a : ℕ) (f : TenantVtime → TenantVtime) (c : VtimeCache)
    → (f (at a c.heap)).evicted ≡ (at a c.heap).evicted
    → Inv c
    → Inv (on_entry a f c)
on_entry-Inv a f c e v = record {
  sound = Sound-modify c.heap c.tenants a f e v.sound;
  orphaned = λ b p u.
      kept_evicted c.heap a b f e (rw size-modify at p) ∙ v.orphaned b (rw size-modify at p) u;
}
