-- ===== src/Cache/Idle.antt =====
-- What a walk makes of each timeline, and of each stored frontier.
use mongoqueue.Base.{
  ℕ, String, ◌≡◌, true, false, Bool, Bool-cases, ◌||◌, none, some, inl, inr, [], ◌∷◌, arith, ◌∙◌,
  sym, ap, subst, if◌then◌else◌, eq_iff, refl,
}
use mongoqueue.Base.Int.{pos}
use mongoqueue.Cache.Table.{
  TimelineKey, Heap, at, Tenants, address, same_key, Lwm, lwm_get, lwm_prune, has_partition,
}
use mongoqueue.Cache.{VtimeCache, visit, walk, invalidate_and_evict}
use mongoqueue.Cache.Inv.{Inv, Sound, at-modify_ne, Unused-address, same_key_iff}
use mongoqueue.Cache.Walk.{walk_first, visited, Sound-frame, walk-address-none}

-- The entry as the walk leaves it, and whether it stays in the map.
record Visited (k : TimelineKey) (a : ℕ) (ts : Tenants) (h : Heap) : Type 0 where
  entry : at a (walk ts h).1 ≡ (visit (at a h)).1
  mapped : address k (walk ts h).0 ≡ (if (visit (at a h)).0 then some a else none)

first-Visited :
    (j k : TimelineKey) (b : ℕ) (rest : Tenants) (h : Heap)
    → Sound h ((j, b) ∷ rest)
    → same_key j k ≡ true
    → Visited k b ((j, b) ∷ rest) h
unfolding walk
first-Visited j k b rest h s hit = record {
  entry = walk_first j b rest h s.2 s.0;
  mapped = ground (
    arith,
    hit,
    walk-address-none rest (visited b h) k
        (subst (λ x. address x rest ≡ none) (same_key_iff j k hit) s.3),
  );
}

walk-Visited :
    (ts : Tenants) (h : Heap) (k : TimelineKey) (a : ℕ)
    → Sound h ts
    → address k ts ≡ some a
    → Visited k a ts h
unfolding walk
walk-Visited [] h k a s e = cc
walk-Visited ((j, b) ∷ rest) h k a s e = elim (Bool-cases (same_key j k)) [
  | inl hit ↦
      subst (λ x. Visited k x ((j, b) ∷ rest) h) (ground (arith, hit))
        (first-Visited j k b rest h s hit)
  | inr miss ↦
      later miss (
        walk-Visited rest (visited b h) k a (Sound-frame h rest b _ s.2 s.4) (ground (arith, miss)))
]
  where
    later : same_key j k ≡ false → Visited k a rest (visited b h) → Visited k a ((j, b) ∷ rest) h
    later miss v = record {
      entry = v.entry ∙ ap (λ t. (visit t).1) other;
      mapped = ground (arith, miss, v.mapped, ap (λ t. (visit t).0) other);
    }
      where
        other : at a (visited b h) ≡ at a h
        other = at-modify_ne b a _ h (λ same.
            Unused-address rest k b s.2
              (subst (λ x. address k rest ≡ some x) (sym same) (ground (arith, miss))))

lwm_get-prune :
    (keep : String → Bool) (p : String) (m : Lwm)
    → lwm_get p (lwm_prune keep m) ≡ (if keep p then lwm_get p m else pos 0)
lwm_get-prune keep p [] = ground arith
lwm_get-prune keep p ((q, v) ∷ m) = ground (arith, eq_iff q p, lwm_get-prune keep p m)

-- A walk adds no partition to the map.
has_partition-walk :
    (p : String) (ts : Tenants) (h : Heap)
    → has_partition p ts ≡ false
    → has_partition p (walk ts h).0 ≡ false
unfolding walk
has_partition-walk p [] h e = refl
has_partition-walk p ((k, a) ∷ rest) h e = ground (arith, has_partition-walk p rest (visited a h))

pub evicted-partition :
    (c : VtimeCache) (p : String)
    → has_partition p c.tenants ≡ false
    → has_partition p (invalidate_and_evict c).tenants ≡ false
unfolding invalidate_and_evict
evicted-partition c p e = has_partition-walk p c.tenants c.heap e

pub pruned_frontier :
    (c : VtimeCache) (p : String)
    → lwm_get p (invalidate_and_evict c).lwm
      ≡ (if has_partition p (invalidate_and_evict c).tenants then lwm_get p c.lwm else pos 0)
unfolding invalidate_and_evict
pruned_frontier c p = lwm_get-prune _ p c.lwm

-- What becomes of an entry that was in use or not.
abbrev pub Fate : Bool → TimelineKey → ℕ → VtimeCache → VtimeCache → Type 0
Fate true k a c c' =
    (address k c'.tenants ≡ some a)
    × (at a c'.heap ≡ record (at a c.heap) { touched = false; stale = true })
Fate false k a c c' =
    (address k c'.tenants ≡ none) × (at a c'.heap ≡ record (at a c.heap) { evicted = true })

pub record Walked (k : TimelineKey) (a : ℕ) (c c' : VtimeCache) : Type 0 where
  pub fate : Fate ((at a c.heap).touched || (at a c.heap).locked) k a c c'
  pub frontier :
      (p : String)
      → lwm_get p c'.lwm ≡ (if has_partition p c'.tenants then lwm_get p c.lwm else pos 0)

-- In a cache with the invariant, a walk marks stale, and keeps, each timeline that was reserved
-- since the walk before or whose lock is held; it evicts every other one. It keeps the stored
-- frontier of each partition that still has a timeline, and drops every other.
pub invalidate_and_evict-Walked :
    (c : VtimeCache) (k : TimelineKey) (a : ℕ)
    → Inv c
    → address k c.tenants ≡ some a
    → Walked k a c (invalidate_and_evict c)
unfolding invalidate_and_evict visit
invalidate_and_evict-Walked c k a v e = record {
  fate = go _ refl;
  frontier = λ p. lwm_get-prune _ p c.lwm;
}
  where
    w : Visited k a c.tenants c.heap
    w = walk-Visited c.tenants c.heap k a v.sound e

    go :
        (b : Bool)
        → ((at a c.heap).touched || (at a c.heap).locked) ≡ b
        → Fate b k a c (invalidate_and_evict c)
    go true r = ground (arith, w.entry, w.mapped)
    go false r = ground (arith, w.entry, w.mapped)
