-- ===== src/Reconcile/Partitions.antt =====
-- The partitions of the cache's map.
use mongoqueue.Base.{String, List, [], ◌∷◌, refl, suc, ℕ, ◌≡◌, if◌then◌else◌, ◌==◌, arith, eq_iff}
use mongoqueue.Cache.Table.{Tenants, has_partition}
use mongoqueue.Cache.{partitions}

abbrev pub count : String → List String → ℕ
count p [] = 0
count p (q ∷ qs) = if q == p then suc (count p qs) else count p qs

-- The list has each partition of the map once, and no other.
pub count-partitions :
    (ts : Tenants) (p : String) → count p (partitions ts) ≡ (if has_partition p ts then 1 else 0)
unfolding partitions
count-partitions [] p = refl
count-partitions ((k, a) ∷ rest) p = ground (arith, eq_iff k.partition p, count-partitions rest p)
