-- ===== src/Threads/Safety.antt =====
-- What holds in every reachable state of the goroutines.
use mongoqueue.Base.{
  ℕ, some, ◌≡◌, inl, inr, refl, arith, sym, ap, Bool-cases, Result, ok, err, false, subst,
  true≢false, ◌∙◌,
}
use mongoqueue.Base.Int.{ℤ}
use mongoqueue.Errors.{Error}
use mongoqueue.Cache.Table.{TimelineKey, at, Lwm, address}
use mongoqueue.Cache.{VtimeCache, place, lock_entry, taken, commit, abort, unlocked, lookup}
use mongoqueue.Threads.{
  Pc, wants, found, inside, Stage, entered, touched, marked, warm, edged, ready, reserved, Answers,
  advance, fails, refreshed, edge_read, placed, stamped, System, Step, begins, looks, locks,
  retries, advances, visits, prunes, stores, go_to, moved, set_touched, apply_stale, start, Reach,
  next, here, Demand,
}
use mongoqueue.Threads.Frame.{Calm, on_entry-Calm, lwm-Calm, Calm-refl, lookup-Calm}
use mongoqueue.Threads.Good.{Good, holds, Calm-Good, Calm-moved, seen}
use mongoqueue.Threads.Locks.{unlock_move, lock_move, some_pair}
use mongoqueue.Threads.Visit.{visit_move}
use mongoqueue.Cache.Lock.{lock_entry-taken, lookup-Inv}

abbrev IsGood : System → Type 0
IsGood s = Good s.cache s.pc

module _ (pc : ℕ → Pc) (g : ℕ) (k : TimelineKey) (a : ℕ) where
  -- The state of the goroutine's step result.
  abbrev Goes : Pc × VtimeCache → Type 0
  Goes r = Good r.1 (moved g r.0 pc)

  stays :
      (c d : VtimeCache) (st : Stage)
      → Good c pc
      → Calm c d
      → holds (pc g) ≡ some (k, a)
      → Goes (inside k a st, d)
  stays c d st v m mine = Calm-moved c d pc g (inside k a st) v m (sym mine) (λ j b e. cc)

  gives_up : (c : VtimeCache) → Good c pc → holds (pc g) ≡ some (k, a) → Goes (fails a c)
  unfolding unlocked
  gives_up c v mine = unlock_move c pc g k a unlocked v mine refl refl

  refreshed-Good :
      (c : VtimeCache) (r : Result Error (Unit {0}) × Lwm)
      → Good c pc
      → holds (pc g) ≡ some (k, a)
      → Goes (refreshed k a c r)
  unfolding refreshed
  refreshed-Good c (ok _, lwm) v mine = stays c _ warm v (lwm-Calm c lwm v.inv) mine
  refreshed-Good c (err e, lwm) v mine =
      gives_up (record c { lwm = lwm }) (Calm-Good c _ pc v (lwm-Calm c lwm v.inv)) mine

  edge_read-Good :
      (c : VtimeCache) (r : Result Error ℤ)
      → Good c pc
      → holds (pc g) ≡ some (k, a)
      → Goes (edge_read k a c r)
  unfolding edge_read
  edge_read-Good c (ok e) v mine = stays c c (edged e) v (Calm-refl c v.inv) mine
  edge_read-Good c (err e) v mine = gives_up c v mine

  stamped-Good :
      (c : VtimeCache) (r : Result Error ℤ)
      → Good c pc
      → holds (pc g) ≡ some (k, a)
      → Goes (stamped k a c r)
  unfolding stamped
  stamped-Good c (ok e) v mine = stays c c (reserved e) v (Calm-refl c v.inv) mine
  stamped-Good c (err e) v mine = gives_up c v mine

  advance-Good :
      (w : Answers) (job : Demand) (st : Stage) (c : VtimeCache)
      → Good c pc
      → holds (pc g) ≡ some (k, a)
      → Goes (advance w job k a st c)
  unfolding advance set_touched apply_stale placed place commit abort unlocked
  advance-Good w job entered c v mine =
      stays c _ touched v
        (on_entry-Calm a set_touched c v.inv (record { same_locked = refl; same_evicted = refl }))
        mine
  advance-Good w job touched c v mine =
      stays c _ marked v
        (on_entry-Calm a apply_stale c v.inv
          (record { same_locked = ground arith; same_evicted = ground arith }))
        mine
  advance-Good w job marked c v mine = elim (Bool-cases (at a c.heap).seeded) [
    | inl e ↦ rw e (stays c c ready v (Calm-refl c v.inv) mine)
    | inr e ↦ elim (Bool-cases (at a c.heap).ever_seeded) [
      | inl f ↦ rw (e, f) (stays c c warm v (Calm-refl c v.inv) mine)
      | inr f ↦ rw (e, f) (refreshed-Good c _ v mine)
    ]
  ]
  advance-Good w job warm c v mine = edge_read-Good c _ v mine
  advance-Good w job (edged x) c v mine =
      stays c _ ready v
        (on_entry-Calm a _ c v.inv (record { same_locked = refl; same_evicted = refl })) mine
  advance-Good w job ready c v mine = stamped-Good c _ v mine
  advance-Good w job (reserved x) c v mine = elim (Bool-cases w.inserted) [
    | inl e ↦ rw e (unlock_move c pc g k a _ v mine refl refl)
    | inr e ↦ rw e (unlock_move c pc g k a _ v mine refl refl)
  ]

pub lock_entry-free :
    (a : ℕ) (c d : VtimeCache) → lock_entry a c ≡ taken d → (at a c.heap).locked ≡ false
unfolding lock_entry
lock_entry-free a c d e = ground arith

locks-Good :
    (s : System) (g : ℕ) (k : TimelineKey) (a : ℕ) (c : VtimeCache)
    → IsGood s
    → s.pc g ≡ found k a
    → lock_entry a s.cache ≡ taken c
    → IsGood (go_to g (inside k a entered, c) s)
locks-Good s g k a c v at_found e = elim (v.known g k a (ap seen at_found)) [
  | inl mapped ↦
      subst (λ d. Good d (moved g (inside k a entered) s.pc)) (lock_entry-taken a s.cache c e).1
        (lock_move s.cache s.pc g k a v (ap holds at_found) mapped (lock_entry-free a s.cache c e))
  | inr gone ↦ absurd (true≢false (sym gone ∙ (lock_entry-taken a s.cache c e).0))
]

Step-Good : {s t : System} → Step s t → IsGood s → IsGood t
Step-Good {s} (begins g k job e) v =
    Calm-moved s.cache s.cache s.pc g (wants k) v (Calm-refl s.cache v.inv) (sym (ap holds e))
      (λ j b q. cc)
Step-Good {s} (looks g k e) v =
    Calm-moved s.cache _ s.pc g _ v (lookup-Calm k s.cache v.inv) (sym (ap holds e)) (λ j b q.
      subst (λ (x : TimelineKey × ℕ). address x.0 (lookup k s.cache).1.tenants ≡ some x.1)
        (some_pair q) (lookup-Inv k s.cache v.inv).1)
Step-Good {s} (locks g k a c e q) v = locks-Good s g k a c v e q
Step-Good {s} (retries g k a e q) v =
    Calm-moved s.cache s.cache s.pc g (wants k) v (Calm-refl s.cache v.inv) (sym (ap holds e))
      (λ j b q. cc)
Step-Good {s} (advances g k a st w e) v =
    advance-Good s.pc g k a w (s.call g) st s.cache v (ap holds e)
Step-Good {s} (visits k a e) v = visit_move s.cache s.pc k a v e
Step-Good {s} (prunes keep) v = Calm-Good s.cache _ s.pc v (lwm-Calm s.cache _ v.inv)
Step-Good {s} (stores p x) v = Calm-Good s.cache _ s.pc v (lwm-Calm s.cache _ v.inv)

start-Good : IsGood start
start-Good = record {
  inv = record { sound = tt; orphaned = λ a p u. elim p [ ] };
  owned = λ g k a e. cc;
  unique = λ g h k j a e f. cc;
  held = λ a e. cc;
  known = λ g k a e. cc;
}

pub Reach-Good : {s : System} → Reach s → Good s.cache s.pc
Reach-Good here = start-Good
Reach-Good (next r t) = Step-Good t (Reach-Good r)

-- In every state that the goroutines and Reconcile reach from an empty cache, at most one goroutine
-- is past lockTimeline and not done on a timeline, and the entry whose lock it holds is the one that
-- the map has for the timeline.
pub mutual_exclusion :
    {s : System} (g h : ℕ) (k : TimelineKey) (a b : ℕ)
    → Reach s
    → holds (s.pc g) ≡ some (k, a)
    → holds (s.pc h) ≡ some (k, b)
    → (g ≡ h) × (a ≡ b) × (address k s.cache.tenants ≡ some a)
mutual_exclusion {s} g h k a b r p q =
    (v.unique g h k k a p (q ∙ ap (λ (x : ℕ). some (k, x)) (sym same)), same, (v.owned g k a p).0)
  where
    v : Good s.cache s.pc
    v = Reach-Good r

    some_address : {x y : ℕ} → some x ≡ some y → x ≡ y
    some_address e = cc

    same : a ≡ b
    same = some_address (sym (v.owned g k a p).0 ∙ (v.owned h k b q).0)
