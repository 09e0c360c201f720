-- ===== src/Threads/Evict.antt =====
-- What the removal of a key does to the cache's map.
use mongoqueue.Base.{ℕ, ◌≡◌, ◌≢◌, inl, inr, refl, none, some, [], ◌∷◌, arith, Bool-cases}
use mongoqueue.Cache.Table.{TimelineKey, Heap, same_key, Tenants, address}
use mongoqueue.Cache.Inv.{Sound, Unused, Unused-address}
use mongoqueue.Threads.{remove}

pub Unused-remove : (k : TimelineKey) (ts : Tenants) (b : ℕ) → Unused b ts → Unused b (remove k ts)
Unused-remove k [] b u = tt
Unused-remove k ((j, d) ∷ rest) b u = ground (arith, Unused-remove k rest b u.1)

address-none-remove :
    (k : TimelineKey) (ts : Tenants) (j : TimelineKey)
    → address j ts ≡ none
    → address j (remove k ts) ≡ none
address-none-remove k [] j e = refl
address-none-remove k ((i, d) ∷ rest) j e = ground (arith, address-none-remove k rest j)

pub Sound-remove : (h : Heap) (k : TimelineKey) (ts : Tenants) → Sound h ts → Sound h (remove k ts)
Sound-remove h k [] s = tt
Sound-remove h k ((j, d) ∷ rest) s = elim (Bool-cases (same_key j k)) [
  | inl hit ↦ rw hit s.4
  | inr miss ↦ rw miss (
    s.0,
    s.1,
    Unused-remove k rest d s.2,
    address-none-remove k rest j s.3,
    Sound-remove h k rest s.4,
  )
]

-- The entry that the key went to is no longer in the map.
pub removed-Unused :
    (h : Heap) (k : TimelineKey) (ts : Tenants) (a : ℕ)
    → Sound h ts
    → address k ts ≡ some a
    → Unused a (remove k ts)
removed-Unused h k [] a s e = tt
removed-Unused h k ((j, d) ∷ rest) a s e = elim (Bool-cases (same_key j k)) [
  | inl hit ↦ rw hit (ground (arith, hit, s.2))
  | inr miss ↦ ground (arith, miss, removed-Unused h k rest a s.4, Unused-address rest k d s.2)
]

-- No other entry leaves the map.
pub Unused-of_remove :
    (k : TimelineKey) (ts : Tenants) (a b : ℕ)
    → address k ts ≡ some a
    → Unused b (remove k ts)
    → b ≢ a
    → Unused b ts
Unused-of_remove k [] a b e u n = tt
Unused-of_remove k ((j, d) ∷ rest) a b e u n = ground (arith, Unused-of_remove k rest a b)

pub address-remove :
    (k : TimelineKey) (ts : Tenants) (a : ℕ) (j : TimelineKey) (b : ℕ)
    → address k ts ≡ some a
    → address j ts ≡ some b
    → b ≢ a
    → address j (remove k ts) ≡ some b
address-remove k [] a j b e f n = cc
address-remove k ((i, d) ∷ rest) a j b e f n = ground (arith, address-remove k rest a j b)
