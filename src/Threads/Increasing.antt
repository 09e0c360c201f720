-- ===== src/Threads/Increasing.antt =====
-- The stamps of one entry between two seeds of it (vtimecache.go), in any order of the goroutines'
-- steps.
use mongoqueue.Base.{
  ℕ, ◌≡◌, ◌≤◌, ◌^◌, refl, sym, ap, subst, ok, err, Result, false, arith, Bool-cases, inl, inr, true,
  ◌<◌,
}
use mongoqueue.Base.Int.{pos, negsuc, ℤ, ◌≤ℤ◌, ◌<ℤ◌, neg_part}
use mongoqueue.Errors.{Error}
use mongoqueue.VTime.Exact.{next_vstamp-increasing}
use mongoqueue.Cache.Table.{TimelineKey, TenantVtime, at, Lwm, size}
use mongoqueue.Cache.{VtimeCache, on_entry, unlocked, commit, abort, place}
use mongoqueue.Cache.Lock.{lock_entry-taken}
use mongoqueue.Threads.{
  entered, touched, marked, warm, edged, ready, reserved, Answers, Demand, advance, refreshed,
  edge_read, stamped, set_touched, apply_stale, System, Step, begins, looks, locks, retries,
  advances, visits, prunes, stores, Run, here, next, Reach, inside, go_to,
}
use mongoqueue.Threads.Frame.{at-modify_cases}
use mongoqueue.Threads.Clock.{IsNext, Reach-Stamped, lookup-at, visit_entry-vtime}
use mongoqueue.Cache.Inv.{at-modify_self, address-live}
use mongoqueue.Base.Int64.{IsInt64}
use mongoqueue.Threads.Safety.{Reach-Good}
use mongoqueue.Threads.Good.{holds}

abbrev pub clock_at : ℕ → VtimeCache → ℤ
clock_at a c = (at a c.heap).vtime

-- A step in which a seed places the entry's clock.
abbrev pub Seeds : {s t : System} → ℕ → Step s t → Type 0
Seeds a (begins g k job e) = ⊥
Seeds a (looks g k e) = ⊥
Seeds a (locks g k b c e q) = ⊥
Seeds a (retries g k b e q) = ⊥
Seeds a (advances g k b (edged edge) w e) = b ≡ a
Seeds a (advances g k b st w e) = ⊥
Seeds a (visits k b e) = ⊥
Seeds a (prunes keep) = ⊥
Seeds a (stores p v) = ⊥

abbrev pub Unseeded : {s t : System} → ℕ → Run s t → Type 0
Unseeded a here = Unit {0}
Unseeded a (next r st) = Unseeded a r × (¬ Seeds a st)

same-le : {x y : ℤ} → y ≡ x → x ≤ℤ y
same-le {x} e = subst (λ y. x ≤ℤ y) (sym e) (omega arith)

module _ (a : ℕ) where
  kept-le :
      (b : ℕ) (f : TenantVtime → TenantVtime) (c : VtimeCache)
      → ((t : TenantVtime) → (f t).vtime ≡ t.vtime)
      → clock_at a c ≤ℤ clock_at a (on_entry b f c)
  kept-le b f c h =
      at-modify_cases b a f c.heap (λ t. clock_at a c ≤ℤ t.vtime) (omega arith)
        (λ _. same-le (h (at a c.heap)))

  module _ (k : TimelineKey) (b : ℕ) where
    refreshed-le :
        (c : VtimeCache) (r : Result Error (Unit {0}) × Lwm)
        → clock_at a c ≤ℤ clock_at a (refreshed k b c r).1
    unfolding refreshed unlocked
    refreshed-le c (ok _, lwm) = omega arith
    refreshed-le c (err e, lwm) = kept-le b unlocked c (λ t. refl)

    edge_read-le :
        (c : VtimeCache) (r : Result Error ℤ) → clock_at a c ≤ℤ clock_at a (edge_read k b c r).1
    unfolding edge_read unlocked
    edge_read-le c (ok e) = omega arith
    edge_read-le c (err e) = kept-le b unlocked c (λ t. refl)

    stamped-le :
        (c : VtimeCache) (r : Result Error ℤ) → clock_at a c ≤ℤ clock_at a (stamped k b c r).1
    unfolding stamped unlocked
    stamped-le c (ok v) = omega arith
    stamped-le c (err e) = kept-le b unlocked c (λ t. refl)

    -- A reserved stamp is above the clock that its commit replaces.
    reserved-le :
        (w : Answers) (job : Demand) (v : ℤ) (c : VtimeCache)
        → (b ≡ a → clock_at a c <ℤ v)
        → clock_at a c ≤ℤ clock_at a (advance w job k b (reserved v) c).1
    unfolding advance commit abort unlocked
    reserved-le w job v c h = elim (Bool-cases w.inserted) [
      | inl e ↦ rw e (
          at-modify_cases b a (λ t. record t { vtime = v; locked = false }) c.heap
            (λ t. clock_at a c ≤ℤ t.vtime) (omega arith) (λ q. let x = h q in omega (arith, x)))
      | inr e ↦ rw e (kept-le b unlocked c (λ t. refl))
    ]

    marked-le :
        (w : Answers) (job : Demand) (c : VtimeCache)
        → clock_at a c ≤ℤ clock_at a (advance w job k b marked c).1
    unfolding advance
    marked-le w job c = elim (Bool-cases (at b c.heap).seeded) [
      | inl e ↦ rw e (omega arith)
      | inr e ↦ elim (Bool-cases (at b c.heap).ever_seeded) [
        | inl f ↦ rw (e, f) (omega arith)
        | inr f ↦ rw (e, f) (refreshed-le c _)
      ]
    ]

-- A step that does not seed the entry leaves its clock where it is or moves it ahead.
step-le :
    {s t : System} (a : ℕ) (st : Step s t)
    → Reach s
    → neg_part (clock_at a s.cache) ≤ 2 ^ 63
    → ¬ Seeds a st
    → clock_at a s.cache ≤ℤ clock_at a t.cache
unfolding advance set_touched apply_stale place
step-le a (begins g k job e) r n u = omega arith
step-le {s} a (looks g k e) r n u =
    same-le (ap (λ (t : TenantVtime). t.vtime) (lookup-at k s.cache a))
step-le {s} a (locks g k b c e q) r n u =
    subst (λ d. clock_at a s.cache ≤ℤ clock_at a d) (lock_entry-taken b s.cache c q).1
      (kept-le a b _ s.cache (λ t. refl))
step-le a (retries g k b e q) r n u = omega arith
step-le {s} a (advances g k b entered w e) r n u = kept-le a b set_touched s.cache (λ t. refl)
step-le {s} a (advances g k b touched w e) r n u =
    kept-le a b apply_stale s.cache (λ t. ground arith)
step-le {s} a (advances g k b marked w e) r n u = marked-le a k b w (s.call g) s.cache
step-le {s} a (advances g k b warm w e) r n u = edge_read-le a k b s.cache _
step-le {s} a (advances g k b (edged edge) w e) r n u =
    at-modify_cases b a _ s.cache.heap (λ t. clock_at a s.cache ≤ℤ t.vtime) (omega arith)
      (λ q. absurd (u q))
step-le {s} a (advances g k b ready w e) r n u = stamped-le a k b s.cache _
step-le {s} a (advances g k b (reserved v) w e) r n u =
    reserved-le a k b w (s.call g) v s.cache (λ q.
      (next_vstamp-increasing (clock_at a s.cache) (s.call g).cost (s.call g).weight n
        (subst (λ x. IsNext (s.call g) (clock_at x s.cache) v) q (Reach-Stamped r g k b v e))).0)
step-le {s} a (visits k b e) r n u = same-le (visit_entry-vtime k b s.cache a)
step-le a (prunes keep) r n u = omega arith
step-le a (stores p v) r n u = omega arith

then_run : {s t : System} → Reach s → Run s t → Reach t
then_run r here = r
then_run r (next x st) = next (then_run r x) st

neg_part-le : (x y : ℤ) (n : ℕ) → x ≤ℤ y → neg_part x ≤ n → neg_part y ≤ n
neg_part-le x (pos m) n h p = omega arith
neg_part-le x (negsuc m) n h p = omega (arith, h, p)

run-le :
    {s u : System} (a : ℕ) (x : Run s u)
    → Reach s
    → neg_part (clock_at a s.cache) ≤ 2 ^ 63
    → Unseeded a x
    → clock_at a s.cache ≤ℤ clock_at a u.cache
run-le a here r n u = omega arith
run-le {s} a (next {t} x st) r n e =
    let p = run-le a x r n e.0 in
    let q =
      step-le a st (then_run r x)
        (neg_part-le (clock_at a s.cache) (clock_at a t.cache) (2 ^ 63) p n) e.1 in
    omega (arith, p, q)

committed-clock :
    (w : Answers) (job : Demand) (k : TimelineKey) (a : ℕ) (v : ℤ) (c : VtimeCache)
    → a < size c.heap
    → w.inserted ≡ true
    → clock_at a (advance w job k a (reserved v) c).1 ≡ v
unfolding advance commit
committed-clock w job k a v c p i = rw i (
    ap (λ (t : TenantVtime). t.vtime)
      (at-modify_self a (λ t. record t { vtime = v; locked = false }) c.heap p))

-- In every state that the goroutines and Reconcile reach, if the insert of a reserved stamp
-- succeeds, then a stamp that is reserved on the same entry after any run of steps, in which no
-- seed places that entry's clock, is later than the first; the clock that the first stamp followed
-- is taken to be -2^63 or more, as an int64 is.
pub stamps_increase :
    {s u : System} (g h : ℕ) (k j : TimelineKey) (a : ℕ) (v v' : ℤ) (w : Answers)
    → Reach s
    → s.pc g ≡ inside k a (reserved v)
    → neg_part (clock_at a s.cache) ≤ 2 ^ 63
    → w.inserted ≡ true
    → (x : Run (go_to g (advance w (s.call g) k a (reserved v) s.cache) s) u) → Unseeded a x
    → u.pc h ≡ inside j a (reserved v')
    → v <ℤ v'
stamps_increase {s} {u} g h k j a v v' w r e n i x unseeded f = omega (arith, moved_on, last)
  where
    after : System
    after = go_to g (advance w (s.call g) k a (reserved v) s.cache) s

    stepped : Reach after
    stepped = next r (advances g k a (reserved v) w e)

    first : (clock_at a s.cache <ℤ v) × IsInt64 v
    first =
        next_vstamp-increasing (clock_at a s.cache) (s.call g).cost (s.call g).weight n
          (Reach-Stamped r g k a v e)

    there : a < size s.cache.heap
    there =
        let v = Reach-Good r in
        (address-live s.cache.heap s.cache.tenants k a v.inv.sound (v.owned g k a (ap holds e)).0).0

    committed : clock_at a after.cache ≡ v
    committed = committed-clock w (s.call g) k a v s.cache there i

    moved_on : v ≤ℤ clock_at a u.cache
    moved_on =
        subst (λ y. y ≤ℤ clock_at a u.cache) committed
          (run-le a x stepped (rw committed first.1.1) unseeded)

    last : clock_at a u.cache <ℤ v'
    last =
        (next_vstamp-increasing (clock_at a u.cache) (u.call h).cost (u.call h).weight
          (neg_part-le v (clock_at a u.cache) (2 ^ 63) moved_on first.1.1)
          (Reach-Stamped (then_run stepped x) h j a v' f)).0
