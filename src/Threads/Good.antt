-- ===== src/Threads/Good.antt =====
-- The invariant of the goroutines and their cache, and the kinds of step that keep it.
use mongoqueue.Base.{ℕ, Option, none, some, ◌≡◌, ◌≢◌, ◌⊎◌, inl, inr, true, arith, sym, ◌∙◌, ap}
use native.Mathlib.Decide.{ℕ_discrete}
use mongoqueue.Cache.Table.{TimelineKey, at, address}
use mongoqueue.Cache.{VtimeCache}
use mongoqueue.Cache.Inv.{Inv}
use mongoqueue.Threads.{Pc, found, inside, moved}
use mongoqueue.Threads.Frame.{Calm}

-- The timeline and the entry that a goroutine has got the lock of.
abbrev pub holds : Pc → Option (TimelineKey × ℕ)
holds (inside k a st) = some (k, a)
holds _ = none

-- The timeline and the entry that a goroutine has looked up, and not locked yet.
abbrev pub seen : Pc → Option (TimelineKey × ℕ)
seen (found k a) = some (k, a)
seen _ = none

pub record Good (c : VtimeCache) (pc : ℕ → Pc) : Type 0 where
  pub inv : Inv c
  pub owned :
      (g : ℕ) (k : TimelineKey) (a : ℕ)
      → holds (pc g) ≡ some (k, a)
      → (address k c.tenants ≡ some a) × ((at a c.heap).locked ≡ true)
  pub unique :
      (g h : ℕ) (k j : TimelineKey) (a : ℕ)
      → holds (pc g) ≡ some (k, a)
      → holds (pc h) ≡ some (j, a)
      → g ≡ h
  pub held :
      (a : ℕ)
      → (at a c.heap).locked ≡ true
      → (g : ℕ) × (k : TimelineKey) × (holds (pc g) ≡ some (k, a))
  pub known :
      (g : ℕ) (k : TimelineKey) (a : ℕ)
      → seen (pc g) ≡ some (k, a)
      → (address k c.tenants ≡ some a) ⊎ ((at a c.heap).evicted ≡ true)

-- After a move of one goroutine, each one is the one that moved or stands where it stood.
pub moved-cases {ℓ} :
    {A : Type ℓ} (g : ℕ) (p : A) (pc : ℕ → A) (h : ℕ)
    → ((h ≡ g) × (moved g p pc h ≡ p)) ⊎ ((h ≢ g) × (moved g p pc h ≡ pc h))
unfolding moved
moved-cases g p pc h = elim (ℕ_discrete h g) [
  | yes e ↦ inl (e, ground (arith, e))
  | no n ↦ inr (n, ground (arith, n))
]

pub moved_self : (g : ℕ) (p : Pc) (pc : ℕ → Pc) → moved g p pc g ≡ p
unfolding moved
moved_self g p pc = ground arith

-- A change of the cache while no goroutine moves.
pub Calm-Good : (c d : VtimeCache) (pc : ℕ → Pc) → Good c pc → Calm c d → Good d pc
Calm-Good c d pc v m = record {
  inv = m.inv;
  owned = λ g k a e.
      let (mapped, locked) = v.owned g k a e in
      (m.kept k a mapped, (m.flags a).same_locked ∙ locked);
  unique = v.unique;
  held = λ a e. v.held a (sym (m.flags a).same_locked ∙ e);
  known = λ g k a e. elim (v.known g k a e) [
    | inl mapped ↦ inl (m.kept k a mapped)
    | inr gone ↦ inr ((m.flags a).same_evicted ∙ gone)
  ];
}

-- A move that neither takes nor frees a lock.
move_same :
    (c : VtimeCache) (pc : ℕ → Pc) (g : ℕ) (p : Pc)
    → Good c pc
    → holds p ≡ holds (pc g)
    → ((k : TimelineKey) (a : ℕ) → seen p ≡ some (k, a) → address k c.tenants ≡ some a)
    → Good c (moved g p pc)
move_same c pc g p v same claim = record {
  inv = v.inv;
  owned = λ h k a e. v.owned h k a (sym (stands h) ∙ e);
  unique = λ h i k j a e f. v.unique h i k j a (sym (stands h) ∙ e) (sym (stands i) ∙ f);
  held = λ a e. let (h, k, q) = v.held a e in (h, k, stands h ∙ q);
  known = λ h k a e. elim (moved-cases g p pc h) [
    | inl (_, q) ↦ inl (claim k a (sym (ap seen q) ∙ e))
    | inr (_, q) ↦ v.known h k a (sym (ap seen q) ∙ e)
  ];
}
  where
    stands : (h : ℕ) → holds (moved g p pc h) ≡ holds (pc h)
    stands h = elim (moved-cases g p pc h) [
      | inl (e, q) ↦ ap holds q ∙ same ∙ ap (λ x. holds (pc x)) (sym e)
      | inr (n, q) ↦ ap holds q
    ]

-- Both at once.
pub Calm-moved :
    (c d : VtimeCache) (pc : ℕ → Pc) (g : ℕ) (p : Pc)
    → Good c pc
    → Calm c d
    → holds p ≡ holds (pc g)
    → ((k : TimelineKey) (a : ℕ) → seen p ≡ some (k, a) → address k d.tenants ≡ some a)
    → Good d (moved g p pc)
Calm-moved c d pc g p v m same claim = move_same d pc g p (Calm-Good c d pc v m) same claim
