-- ===== src/Threads/Clock.antt =====
-- The clock of an entry between a reservation and its commit.
use mongoqueue.Base.{
  ℕ, ok, err, Result, ◌≡◌, ◌≢◌, inl, inr, refl, sym, ◌∙◌, ap, subst, Bool-cases, some, true,
  Option-cases, arith, true≢false,
}
use mongoqueue.Base.Int.{ℤ}
use mongoqueue.Errors.{Error}
use mongoqueue.VTime.{next_vstamp}
use mongoqueue.Cache.Table.{TimelineKey, TenantVtime, at, Lwm, address}
use mongoqueue.Cache.{
  VtimeCache, on_entry, unlocked, place, commit, abort, lookup, visit, lock_entry, taken,
}
use mongoqueue.Cache.Inv.{at-modify_ne}
use mongoqueue.Threads.{
  Pc, wants, Demand, inside, Stage, entered, touched, marked, warm, edged, ready, reserved, Answers,
  advance, fails, refreshed, edge_read, placed, stamped, visit_entry, System, moved, Step, Reach,
  begins, next, looks, here, locks, retries, advances, visits, prunes, stores,
}
use mongoqueue.Threads.Good.{holds, Good, moved-cases}
use mongoqueue.Threads.Frame.{at-modify_cases, at-append_any}
use mongoqueue.Threads.Safety.{Reach-Good, lock_entry-free}
use mongoqueue.Cache.Lock.{lock_entry-taken}

-- A stamp is one stride of a job after a clock.
abbrev pub IsNext : Demand → ℤ → ℤ → Type 0
IsNext job clock v = next_vstamp clock job.cost job.weight ≡ ok v

abbrev pub Stamped : VtimeCache → (ℕ → Pc) → (ℕ → Demand) → Type 0
Stamped c pc call =
    (g : ℕ) (k : TimelineKey) (a : ℕ) (v : ℤ)
    → pc g ≡ inside k a (reserved v)
    → IsNext (call g) (at a c.heap).vtime v

-- What a step of the holder of an entry does: it changes that entry alone, and a stamp that it
-- reserves is one stride after the entry's clock.
record Local (job : Demand) (b : ℕ) (c : VtimeCache) (p : Pc) (d : VtimeCache) : Type 0 where
  apart : (a : ℕ) → a ≢ b → at a d.heap ≡ at a c.heap
  own :
      (k : TimelineKey) (a : ℕ) (v : ℤ)
      → p ≡ inside k a (reserved v)
      → IsNext job (at a d.heap).vtime v

pub entry-apart :
    (b : ℕ) (f : TenantVtime → TenantVtime) (c : VtimeCache) (a : ℕ)
    → a ≢ b
    → at a (on_entry b f c).heap ≡ at a c.heap
entry-apart b f c a n = at-modify_ne b a f c.heap (λ e. n (sym e))

module _ (job : Demand) (k : TimelineKey) (b : ℕ) where
  fails-Local : (c : VtimeCache) → Local job b c (fails b c).0 (fails b c).1
  fails-Local c = record { apart = entry-apart b unlocked c; own = λ j a v e. cc }

  refreshed-Local :
      (c : VtimeCache) (r : Result Error (Unit {0}) × Lwm)
      → Local job b c (refreshed k b c r).0 (refreshed k b c r).1
  unfolding refreshed
  refreshed-Local c (ok _, lwm) = record { apart = λ a n. refl; own = λ j a v e. cc }
  refreshed-Local c (err e, lwm) = record { apart = entry-apart b unlocked c; own = λ j a v e. cc }

  edge_read-Local :
      (c : VtimeCache) (r : Result Error ℤ)
      → Local job b c (edge_read k b c r).0 (edge_read k b c r).1
  unfolding edge_read
  edge_read-Local c (ok e) = record { apart = λ a n. refl; own = λ j a v q. cc }
  edge_read-Local c (err e) = fails-Local c

  stamped-Local :
      (c : VtimeCache) (r : Result Error ℤ)
      → next_vstamp (at b c.heap).vtime job.cost job.weight ≡ r
      → Local job b c (stamped k b c r).0 (stamped k b c r).1
  unfolding stamped
  stamped-Local c (ok x) e = record {
    apart = λ a n. refl;
    own = λ j a v q.
        subst (λ y. IsNext job (at y c.heap).vtime v) (same_address q) (e ∙ ap ok (same_stamp q));
  }
    where
      same_address :
          {j : TimelineKey} {a : ℕ} {v : ℤ}
          → inside k b (reserved x) ≡ inside j a (reserved v)
          → b ≡ a
      same_address q = cc

      same_stamp :
          {j : TimelineKey} {a : ℕ} {v : ℤ}
          → inside k b (reserved x) ≡ inside j a (reserved v)
          → x ≡ v
      same_stamp q = cc
  stamped-Local c (err x) e = fails-Local c

  advance-Local :
      (w : Answers) (st : Stage) (c : VtimeCache)
      → Local job b c (advance w job k b st c).0 (advance w job k b st c).1
  unfolding advance placed place commit abort
  advance-Local w entered c = record { apart = entry-apart b _ c; own = λ j a v e. cc }
  advance-Local w touched c = record { apart = entry-apart b _ c; own = λ j a v e. cc }
  advance-Local w marked c = elim (Bool-cases (at b c.heap).seeded) [
    | inl e ↦ rw e (record { apart = λ a n. refl; own = λ j a v q. cc })
    | inr e ↦ elim (Bool-cases (at b c.heap).ever_seeded) [
      | inl f ↦ rw (e, f) (record { apart = λ a n. refl; own = λ j a v q. cc })
      | inr f ↦ rw (e, f) (refreshed-Local c _)
    ]
  ]
  advance-Local w warm c = edge_read-Local c _
  advance-Local w (edged x) c = record { apart = entry-apart b _ c; own = λ j a v e. cc }
  advance-Local w ready c = stamped-Local c _ refl
  advance-Local w (reserved x) c = elim (Bool-cases w.inserted) [
    | inl e ↦ rw e (record { apart = entry-apart b _ c; own = λ j a v q. cc })
    | inr e ↦ rw e (record { apart = entry-apart b _ c; own = λ j a v q. cc })
  ]

-- A move of one goroutine keeps the others' stamps next to their clocks, if it keeps the clocks.
moved-Stamped :
    (c d : VtimeCache) (pc : ℕ → Pc) (call : ℕ → Demand) (g : ℕ) (p : Pc)
    → Stamped c pc call
    → ((h : ℕ) (k : TimelineKey) (a : ℕ)
        → h ≢ g
        → holds (pc h) ≡ some (k, a)
        → (at a d.heap).vtime ≡ (at a c.heap).vtime)
    → ((k : TimelineKey) (a : ℕ) (v : ℤ)
        → p ≡ inside k a (reserved v)
        → IsNext (call g) (at a d.heap).vtime v)
    → Stamped d (moved g p pc) call
moved-Stamped c d pc call g p s keeps own h k a v e = elim (moved-cases g p pc h) [
  | inl (same, q) ↦
      subst (λ x. IsNext (call x) (at a d.heap).vtime v) (sym same) (own k a v (sym q ∙ e))
  | inr (n, q) ↦
      subst (λ x. IsNext (call h) x v) (sym (keeps h k a n (ap holds (sym q ∙ e))))
        (s h k a v (sym q ∙ e))
]

pub lookup-at : (k : TimelineKey) (c : VtimeCache) (a : ℕ) → at a (lookup k c).1.heap ≡ at a c.heap
unfolding lookup
lookup-at k c a = elim (Option-cases (address k c.tenants)) [
  | inl n ↦ rw (n, lookup) (at-append_any a c.heap)
  | inr (b, e) ↦ rw (e, lookup) refl
]

visit-vtime : (t : TenantVtime) → (visit t).1.vtime ≡ t.vtime
unfolding visit
visit-vtime t = ground arith

pub visit_entry-vtime :
    (k : TimelineKey) (b : ℕ) (c : VtimeCache) (a : ℕ)
    → (at a (visit_entry k b c).heap).vtime ≡ (at a c.heap).vtime
unfolding visit_entry
visit_entry-vtime k b c a =
    at-modify_cases b a (λ _. (visit (at b c.heap)).1) c.heap
      (λ (t : TenantVtime). t.vtime ≡ (at a c.heap).vtime) refl
      (λ e. visit-vtime (at b c.heap) ∙ ap (λ x. (at x c.heap).vtime) e)

-- The entry whose lock is taken is no holder's.
taken-apart :
    (s : System) (b : ℕ) (c : VtimeCache)
    → Good s.cache s.pc
    → lock_entry b s.cache ≡ taken c
    → (h : ℕ) (k : TimelineKey) (a : ℕ) → holds (s.pc h) ≡ some (k, a)
    → (at a c.heap).vtime ≡ (at a s.cache.heap).vtime
taken-apart s b c v q h k a e =
    subst (λ d. (at a d.heap).vtime ≡ (at a s.cache.heap).vtime) (lock_entry-taken b s.cache c q).1
      (ap (λ (t : TenantVtime). t.vtime)
        (entry-apart b (λ t. record t { locked = true }) s.cache a
          (λ same. true≢false (
            sym (v.owned h k a e).1
            ∙ ap (λ x. (at x s.cache.heap).locked) same
            ∙ lock_entry-free b s.cache c q))))

-- A call that begins holds no reservation, and the others keep their demands.
begun-Stamped :
    (s : System) (g : ℕ) (k : TimelineKey) (job : Demand)
    → Stamped s.cache s.pc s.call
    → Stamped s.cache (moved g (wants k) s.pc) (moved g job s.call)
begun-Stamped s g k job r h j a v e = elim (moved-cases g (wants k) s.pc h) [
  | inl (_, q) ↦ absurd (outside (sym q ∙ e))
  | inr (n, q) ↦ elim (moved-cases g job s.call h) [
    | inl (same, _) ↦ absurd (n same)
    | inr (_, p) ↦ subst (λ x. IsNext x (at a s.cache.heap).vtime v) (sym p) (r h j a v (sym q ∙ e))
  ]
]
  where
    outside : wants k ≡ inside j a (reserved v) → ⊥
    outside q = cc

Step-Stamped :
    {s t : System}
    → Step s t
    → Good s.cache s.pc
    → Stamped s.cache s.pc s.call
    → Stamped t.cache t.pc t.call
Step-Stamped {s} (begins g k job e) v r = begun-Stamped s g k job r
Step-Stamped {s} (looks g k e) v r =
    moved-Stamped s.cache (lookup k s.cache).1 s.pc s.call g _ r
      (λ h j a n m. ap (λ (t : TenantVtime). t.vtime) (lookup-at k s.cache a)) (λ j a x q. cc)
Step-Stamped {s} (locks g k b c e q) v r =
    moved-Stamped s.cache c s.pc s.call g _ r (λ h j a n m. taken-apart s b c v q h j a m)
      (λ j a x y. cc)
Step-Stamped {s} (retries g k b e q) v r =
    moved-Stamped s.cache s.cache s.pc s.call g _ r (λ h j a n m. refl) (λ j a x y. cc)
Step-Stamped {s} (advances g k b st w e) v r =
    moved-Stamped s.cache (advance w (s.call g) k b st s.cache).1 s.pc s.call g _ r
      (λ h j a n m.
        ap (λ (t : TenantVtime). t.vtime)
          ((advance-Local (s.call g) k b w st s.cache).apart a
            (λ same. n (v.unique h g j k b (m ∙ ap (λ (x : ℕ). some (j, x)) same) (ap holds e)))))
      (advance-Local (s.call g) k b w st s.cache).own
Step-Stamped {s} (visits k b e) v r = λ g j a x q.
    subst (λ y. IsNext (s.call g) y x) (sym (visit_entry-vtime k b s.cache a)) (r g j a x q)
Step-Stamped {s} (prunes keep) v r = r
Step-Stamped {s} (stores p x) v r = r

pub Reach-Stamped : {s : System} → Reach s → Stamped s.cache s.pc s.call
Reach-Stamped here = λ g k a v e. cc
Reach-Stamped (next r t) = Step-Stamped t (Reach-Good r) (Reach-Stamped r)

-- In every state that the goroutines and Reconcile reach, while a goroutine holds a reservation,
-- the entry that the map has for its timeline has a clock of which the reserved stamp is the next
-- for the cost and the weight of the goroutine's call, whatever the others did since the stamp was
-- computed.
pub reservation-next_vstamp :
    {s : System} (g : ℕ) (k : TimelineKey) (a : ℕ) (v : ℤ)
    → Reach s
    → s.pc g ≡ inside k a (reserved v)
    → (address k s.cache.tenants ≡ some a)
      × (next_vstamp (at a s.cache.heap).vtime (s.call g).cost (s.call g).weight ≡ ok v)
reservation-next_vstamp {s} g k a v r e =
    (((Reach-Good r).owned g k a (ap holds e)).0, Reach-Stamped r g k a v e)
