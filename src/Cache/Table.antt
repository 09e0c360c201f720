-- ===== src/Cache/Table.antt =====
-- The types of the cache's entries and keys, the heap of entries, and the two maps.
use mongoqueue.Base.{
  ◌≡◌, refl, arith, eq_iff, ℕ, zero, suc, String, Bool, false, ◌&&◌, ◌||◌, Option, none, some, List,
  [], ◌∷◌, ◌++◌, ◌==◌, if◌then◌else◌,
}
use mongoqueue.Base.Int.{ℤ, pos}

pub record TimelineKey : Type 0 where
  pub tenant : String
  pub partition : String

abbrev pub same_key : TimelineKey → TimelineKey → Bool
same_key k j = (k.tenant == j.tenant) && (k.partition == j.partition)

-- `locked` is the state of the mutex.
pub record TenantVtime : Type 0 where
  pub locked : Bool
  pub vtime : ℤ
  pub seeded : Bool
  pub ever_seeded : Bool
  pub evicted : Bool
  pub touched : Bool
  pub stale : Bool

-- &tenantVtime{}
abbrev pub fresh : TenantVtime
fresh = record {
  locked = false;
  vtime = pos 0;
  seeded = false;
  ever_seeded = false;
  evicted = false;
  touched = false;
  stale = false;
}

abbrev pub Heap : Type 0
Heap = List TenantVtime

abbrev pub size : Heap → ℕ
size [] = 0
size (t ∷ h) = suc (size h)

-- The entry at an address.
abbrev pub at : ℕ → Heap → TenantVtime
at a [] = fresh
at zero (t ∷ h) = t
at (suc a) (t ∷ h) = at a h

abbrev pub modify : ℕ → (TenantVtime → TenantVtime) → Heap → Heap
modify a f [] = []
modify zero f (t ∷ h) = f t ∷ h
modify (suc a) f (t ∷ h) = t ∷ modify a f h

abbrev pub allocate : Heap → ℕ × Heap
allocate h = (size h, h ++ fresh ∷ [])

abbrev pub Tenants : Type 0
Tenants = List (TimelineKey × ℕ)

abbrev pub address : TimelineKey → Tenants → Option ℕ
address k [] = none
address k ((j, a) ∷ rest) = if same_key j k then some a else address k rest

abbrev pub has_partition : String → Tenants → Bool
has_partition p [] = false
has_partition p ((k, a) ∷ rest) = (k.partition == p) || has_partition p rest

abbrev pub Lwm : Type 0
Lwm = List (String × ℤ)

-- A missing key reads as 0.
abbrev pub lwm_get : String → Lwm → ℤ
lwm_get p [] = pos 0
lwm_get p ((q, v) ∷ rest) = if q == p then v else lwm_get p rest

abbrev pub lwm_put : String → ℤ → Lwm → Lwm
lwm_put p v [] = (p, v) ∷ []
lwm_put p v ((q, w) ∷ rest) = if q == p then (p, v) ∷ rest else (q, w) ∷ lwm_put p v rest

abbrev pub lwm_prune : (String → Bool) → Lwm → Lwm
lwm_prune keep [] = []
lwm_prune keep ((q, v) ∷ rest) =
    if keep q then (q, v) ∷ lwm_prune keep rest else lwm_prune keep rest

-- What the map has after a store.
pub lwm_get-put :
    (p q : String) (v : ℤ) (m : Lwm)
    → lwm_get p (lwm_put q v m) ≡ (if q == p then v else lwm_get p m)
lwm_get-put p q v [] = refl
lwm_get-put p q v ((r, w) ∷ m) =
    ground (arith, eq_iff r q, eq_iff q p, eq_iff r p, lwm_get-put p q v m)
