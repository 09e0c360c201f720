-- ===== src/Threads/Locks.antt =====
-- The steps that take or free a timeline's lock.
use mongoqueue.Base.{
  Option, ℕ, some, ◌≡◌, ◌≢◌, ◌⊎◌, inl, inr, refl, true, false, sym, ◌∙◌, ap, true≢false, none,
  subst,
}
use native.Mathlib.Decide.{ℕ_discrete}
use mongoqueue.Cache.Table.{TimelineKey, TenantVtime, at, address}
use mongoqueue.Cache.{VtimeCache, on_entry}
use mongoqueue.Cache.Inv.{on_entry-Inv, at-modify_self, at-modify_ne, address-live}
use mongoqueue.Threads.{Pc, moved, inside, entered, idle}
use mongoqueue.Threads.Good.{Good, holds, seen, moved-cases, moved_self}
use mongoqueue.Threads.Frame.{at-modify_cases}

pub some_pair : {x y : TimelineKey × ℕ} → some x ≡ some y → x ≡ y
some_pair e = cc

same_address :
    {k j : TimelineKey} {a b : ℕ}
    → ◌≡◌ {A = Option (TimelineKey × ℕ)} (some (k, a)) (some (j, b))
    → a ≡ b
same_address e = ap (λ (x : TimelineKey × ℕ). x.1) (some_pair e)

pub ne_some : {x : TimelineKey × ℕ} → none ≢ some x
ne_some e = cc

-- A goroutine takes a free lock of an entry in the map.
pub lock_move :
    (c : VtimeCache) (pc : ℕ → Pc) (g : ℕ) (k : TimelineKey) (a : ℕ)
    → Good c pc
    → holds (pc g) ≡ none
    → address k c.tenants ≡ some a
    → (at a c.heap).locked ≡ false
    → Good (on_entry a (λ t. record t { locked = true }) c) (moved g (inside k a entered) pc)
lock_move c pc g k a v outside mapped free = record {
  inv = on_entry-Inv a _ c refl v.inv;
  owned = λ h j b e. owns h j b e (moved-cases g p pc h);
  unique = λ h i j l b e f. one h i j l b e f (moved-cases g p pc h) (moved-cases g p pc i);
  held = λ b e. holder b e (ℕ_discrete b a);
  known = λ h j b e. knows h j b e (moved-cases g p pc h);
}
  where
    p : Pc
    p = inside k a entered

    d : VtimeCache
    d = on_entry a (λ t. record t { locked = true }) c

    locked_now : (at a d.heap).locked ≡ true
    locked_now =
        ap (λ (t : TenantVtime). t.locked)
          (at-modify_self a _ c.heap (address-live c.heap c.tenants k a v.inv.sound mapped).0)

    same_evicted : (b : ℕ) → (at b d.heap).evicted ≡ (at b c.heap).evicted
    same_evicted b =
        at-modify_cases a b _ c.heap (λ (t : TenantVtime). t.evicted ≡ (at b c.heap).evicted) refl
          (λ e. refl)

    still_locked : (b : ℕ) → (at b c.heap).locked ≡ true → (at b d.heap).locked ≡ true
    still_locked b e =
        at-modify_cases a b _ c.heap (λ (t : TenantVtime). t.locked ≡ true) e (λ q. refl)

    other : (h : ℕ) (j : TimelineKey) (b : ℕ) → holds (pc h) ≡ some (j, b) → a ≢ b
    other h j b e q =
        true≢false (sym (v.owned h j b e).1 ∙ ap (λ x. (at x c.heap).locked) (sym q) ∙ free)

    owns :
        (h : ℕ) (j : TimelineKey) (b : ℕ)
        → holds (moved g p pc h) ≡ some (j, b)
        → ((h ≡ g) × (moved g p pc h ≡ p)) ⊎ ((h ≢ g) × (moved g p pc h ≡ pc h))
        → (address j d.tenants ≡ some b) × ((at b d.heap).locked ≡ true)
    owns h j b e (inl (_, q)) =
        subst
          (λ (x : TimelineKey × ℕ).
            (address x.0 c.tenants ≡ some x.1) × ((at x.1 d.heap).locked ≡ true))
          (some_pair (sym (ap holds q) ∙ e)) (mapped, locked_now)
    owns h j b e (inr (_, q)) =
        let (m, l) = v.owned h j b (sym (ap holds q) ∙ e) in (m, still_locked b l)

    one :
        (h i : ℕ) (j l : TimelineKey) (b : ℕ)
        → holds (moved g p pc h) ≡ some (j, b)
        → holds (moved g p pc i) ≡ some (l, b)
        → ((h ≡ g) × (moved g p pc h ≡ p)) ⊎ ((h ≢ g) × (moved g p pc h ≡ pc h))
        → ((i ≡ g) × (moved g p pc i ≡ p)) ⊎ ((i ≢ g) × (moved g p pc i ≡ pc i))
        → h ≡ i
    one h i j l b e f (inl (s, _)) (inl (t, _)) = s ∙ sym t
    one h i j l b e f (inr (_, q)) (inr (_, r)) =
        v.unique h i j l b (sym (ap holds q) ∙ e) (sym (ap holds r) ∙ f)
    one h i j l b e f (inl (_, q)) (inr (_, r)) =
        absurd (other i l b (sym (ap holds r) ∙ f) (same_address (sym (ap holds q) ∙ e)))
    one h i j l b e f (inr (_, q)) (inl (_, r)) =
        absurd (other h j b (sym (ap holds q) ∙ e) (same_address (sym (ap holds r) ∙ f)))

    holder :
        (b : ℕ)
        → (at b d.heap).locked ≡ true
        → Dec (b ≡ a)
        → (h : ℕ) × (j : TimelineKey) × (holds (moved g p pc h) ≡ some (j, b))
    holder b e (yes q) = (g, k, ap holds (moved_self g p pc) ∙ ap (λ (x : ℕ). some (k, x)) (sym q))
    holder b e (no n) = go (
        v.held b (
          sym (ap (λ (t : TenantVtime). t.locked) (at-modify_ne a b _ c.heap (λ q. n (sym q))))
          ∙ e))
      where
        go :
            (h : ℕ) × (j : TimelineKey) × (holds (pc h) ≡ some (j, b))
            → (h : ℕ) × (j : TimelineKey) × (holds (moved g p pc h) ≡ some (j, b))
        go (h, j, w) = elim (moved-cases g p pc h) [
          | inl (s, q) ↦ absurd (ne_some (sym outside ∙ ap (λ x. holds (pc x)) (sym s) ∙ w))
          | inr (m, q) ↦ (h, j, ap holds q ∙ w)
        ]

    knows :
        (h : ℕ) (j : TimelineKey) (b : ℕ)
        → seen (moved g p pc h) ≡ some (j, b)
        → ((h ≡ g) × (moved g p pc h ≡ p)) ⊎ ((h ≢ g) × (moved g p pc h ≡ pc h))
        → (address j d.tenants ≡ some b) ⊎ ((at b d.heap).evicted ≡ true)
    knows h j b e (inl (_, q)) = absurd (ne_some (sym (ap seen q) ∙ e))
    knows h j b e (inr (_, q)) = elim (v.known h j b (sym (ap seen q) ∙ e)) [
      | inl m ↦ inl m
      | inr gone ↦ inr (same_evicted b ∙ gone)
    ]

-- A goroutine frees the lock that it holds, and is done.
pub unlock_move :
    (c : VtimeCache) (pc : ℕ → Pc) (g : ℕ) (k : TimelineKey) (a : ℕ) (f : TenantVtime → TenantVtime)
    → Good c pc
    → holds (pc g) ≡ some (k, a)
    → (f (at a c.heap)).locked ≡ false
    → (f (at a c.heap)).evicted ≡ (at a c.heap).evicted
    → Good (on_entry a f c) (moved g idle pc)
unlock_move c pc g k a f v mine free same = record {
  inv = on_entry-Inv a f c same v.inv;
  owned = λ h j b e.
      let (n, w) = others h j b e in
      let (m, l) = v.owned h j b w in
      (m, ap (λ (t : TenantVtime). t.locked) (at-modify_ne a b f c.heap (apart h j b n w)) ∙ l);
  unique = λ h i j l b e q. v.unique h i j l b (others h j b e).1 (others i l b q).1;
  held = λ b e. holder b e (ℕ_discrete a b);
  known = λ h j b e. knows h j b e (moved-cases g idle pc h);
}
  where
    d : VtimeCache
    d = on_entry a f c

    others :
        (h : ℕ) (j : TimelineKey) (b : ℕ)
        → holds (moved g idle pc h) ≡ some (j, b)
        → (h ≢ g) × (holds (pc h) ≡ some (j, b))
    others h j b e = elim (moved-cases g idle pc h) [
      | inl (s, q) ↦ absurd (ne_some (sym (ap holds q) ∙ e))
      | inr (n, q) ↦ (n, sym (ap holds q) ∙ e)
    ]

    apart : (h : ℕ) (j : TimelineKey) (b : ℕ) → h ≢ g → holds (pc h) ≡ some (j, b) → a ≢ b
    apart h j b n w q = n (v.unique h g j k b w (mine ∙ ap (λ (x : ℕ). some (k, x)) q))

    freed : (at a d.heap).locked ≡ false
    freed =
        ap (λ (t : TenantVtime). t.locked)
          (at-modify_self a f c.heap
            (address-live c.heap c.tenants k a v.inv.sound (v.owned g k a mine).0).0)
        ∙ free

    same_evicted : (b : ℕ) → (at b d.heap).evicted ≡ (at b c.heap).evicted
    same_evicted b =
        at-modify_cases a b f c.heap (λ (t : TenantVtime). t.evicted ≡ (at b c.heap).evicted) refl
          (λ e. subst (λ x. (f (at x c.heap)).evicted ≡ (at x c.heap).evicted) e same)

    holder :
        (b : ℕ)
        → (at b d.heap).locked ≡ true
        → Dec (a ≡ b)
        → (h : ℕ) × (j : TimelineKey) × (holds (moved g idle pc h) ≡ some (j, b))
    holder b e (yes q) =
        absurd (true≢false (sym e ∙ ap (λ x. (at x d.heap).locked) (sym q) ∙ freed))
    holder b e (no n) =
        go (v.held b (sym (ap (λ (t : TenantVtime). t.locked) (at-modify_ne a b f c.heap n)) ∙ e))
      where
        go :
            (h : ℕ) × (j : TimelineKey) × (holds (pc h) ≡ some (j, b))
            → (h : ℕ) × (j : TimelineKey) × (holds (moved g idle pc h) ≡ some (j, b))
        go (h, j, w) = elim (moved-cases g idle pc h) [
          | inl (s, q) ↦ absurd (n (same_address (sym mine ∙ ap (λ x. holds (pc x)) (sym s) ∙ w)))
          | inr (m, q) ↦ (h, j, ap holds q ∙ w)
        ]

    knows :
        (h : ℕ) (j : TimelineKey) (b : ℕ)
        → seen (moved g idle pc h) ≡ some (j, b)
        → ((h ≡ g) × (moved g idle pc h ≡ idle)) ⊎ ((h ≢ g) × (moved g idle pc h ≡ pc h))
        → (address j d.tenants ≡ some b) ⊎ ((at b d.heap).evicted ≡ true)
    knows h j b e (inl (_, q)) = absurd (ne_some (sym (ap seen q) ∙ e))
    knows h j b e (inr (_, q)) = elim (v.known h j b (sym (ap seen q) ∙ e)) [
      | inl m ↦ inl m
      | inr gone ↦ inr (same_evicted b ∙ gone)
    ]
