-- ===== src/Cache/Settle.antt =====
-- What Commit and Abort make of a reservation.
use mongoqueue.Base.{String, ℕ, refl, inl, inr, false, ◌≡◌, ◌<◌, subst, ◌∙◌, sym, ap, ◌⊎◌}
use mongoqueue.Base.Int.{ℤ}
use mongoqueue.Cache.Table.{TenantVtime, size, at, modify}
use mongoqueue.Cache.{VtimeCache, Hooks, Reservation, commit, abort, on_entry, unlocked}
use mongoqueue.Cache.Inv.{size-modify, at-modify_self, at-modify_ne}
use mongoqueue.Cache.Outcome.{OnlyAt, Reserved, Refused, IsCurrent, Placement}

-- The timeline after a commit: its clock stands at the stamp, and its lock is free.
pub record Committed (a : ℕ) (c c' : VtimeCache) (vstamp : ℤ) : Type 0 where
  pub only : OnlyAt a c c'
  pub advanced : (at a c'.heap).vtime ≡ vstamp
  pub current : IsCurrent (at a c'.heap)
  pub free : (at a c'.heap).locked ≡ false

OnlyAt-inside : (a : ℕ) (c c' : VtimeCache) → a < size c.heap → OnlyAt a c c' → a < size c'.heap
OnlyAt-inside a c c' p o = subst (λ n. a < n) (sym o.sizes) p

OnlyAt-on_entry :
    (a : ℕ) (f : TenantVtime → TenantVtime) (c c' : VtimeCache)
    → a < size c'.heap
    → (f (at a c'.heap)).evicted ≡ (at a c'.heap).evicted
    → OnlyAt a c c'
    → OnlyAt a c (on_entry a f c')
OnlyAt-on_entry a f c c' p e o = record {
  tenants = o.tenants;
  sizes = size-modify a f c'.heap ∙ o.sizes;
  others = λ b n. at-modify_ne a b f c'.heap n ∙ o.others b n;
  still = ap (λ (t : TenantVtime). t.evicted) (at-modify_self a f c'.heap p) ∙ e ∙ o.still;
}

Placement-kept :
    (hooks : Hooks) (t p : String) (a : ℕ) (c c' : VtimeCache) {x : ℤ}
    → Placement hooks t p (at a c.heap) c.lwm c'.lwm (at a c'.heap).vtime
    → x ≡ (at a c'.heap).vtime
    → (x ≡ (at a c.heap).vtime) ⊎ (¬ IsCurrent (at a c.heap))
Placement-kept hooks t p a c c' (inl y) q = inl (q ∙ y.1)
Placement-kept hooks t p a c c' (inr y) q = inr y.0

-- A commit leaves the stored frontiers as they are.
pub commit-lwm : (r : Reservation) (c : VtimeCache) → (commit r c).lwm ≡ c.lwm
unfolding commit
commit-lwm r c = refl

pub abort-lwm : (r : Reservation) (c : VtimeCache) → (abort r c).lwm ≡ c.lwm
unfolding abort
abort-lwm r c = refl

module _ (hooks : Hooks) (t p : String) (cost weight : ℤ) (a : ℕ) (c c' : VtimeCache)
    (r : Reservation) (inside : a < size c.heap) (v : Reserved hooks t p cost weight a c c' r) where
  abbrev committed : TenantVtime → TenantVtime
  committed u = record u { vtime = r.vstamp; locked = false }

  changed : (f : TenantVtime → TenantVtime) → at a (modify a f c'.heap) ≡ f (at a c'.heap)
  changed f = at-modify_self a f c'.heap (OnlyAt-inside a c c' inside v.only)

  -- A commit moves the timeline's clock to the reserved stamp and frees its lock, and changes
  -- nothing else.
  pub commit-Committed : Committed a c (commit r c') r.vstamp
  unfolding commit
  commit-Committed =
      subst (λ x. Committed a c (on_entry x committed c') r.vstamp) (sym v.target)
        (record {
          only = OnlyAt-on_entry a committed c c' (OnlyAt-inside a c c' inside v.only) refl v.only;
          advanced = ap (λ (u : TenantVtime). u.vtime) (changed committed);
          current = (
            ap (λ (u : TenantVtime). u.seeded) (changed committed) ∙ v.seeded,
            ap (λ (u : TenantVtime). u.stale) (changed committed) ∙ v.current,
          );
          free = ap (λ (u : TenantVtime). u.locked) (changed committed);
        })

  -- An abort frees the lock, leaves a clock that was current where it was, and changes nothing
  -- else.
  pub abort-Refused : Refused a c (abort r c')
  unfolding abort unlocked
  abort-Refused =
      subst (λ x. Refused a c (on_entry x unlocked c')) (sym v.target)
        (record {
          only = OnlyAt-on_entry a unlocked c c' (OnlyAt-inside a c c' inside v.only) refl v.only;
          free = ap (λ (u : TenantVtime). u.locked) (changed unlocked);
          kept =
              Placement-kept hooks t p a c c' v.placed
                (ap (λ (u : TenantVtime). u.vtime) (changed unlocked));
        })
