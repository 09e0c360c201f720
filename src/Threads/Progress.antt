-- ===== src/Threads/Progress.antt =====
-- A goroutine that holds a lock, left to itself.
use mongoqueue.Base.{
  ℕ, zero, suc, ◌<◌, List, [], ◌∷◌, Result, ok, err, ◌≡◌, ◌⊎◌, inl, inr, refl, false, arith,
  Bool-cases, some, true, ap, ◌≤◌, ◌∙◌, ◌≢◌, subst, sym,
}
use mongoqueue.Base.Int.{ℤ}
use mongoqueue.Errors.{Error}
use mongoqueue.Cache.Table.{TimelineKey, TenantVtime, Heap, at, modify, Lwm}
use mongoqueue.Cache.{VtimeCache, unlocked, commit, abort, place, lock_entry, waits}
use mongoqueue.Threads.{
  Pc, idle, inside, Stage, entered, touched, marked, warm, edged, ready, reserved, Answers, advance,
  fails, refreshed, edge_read, placed, stamped, System, go_to, Reach, wants, found, Demand,
}
use mongoqueue.Threads.Good.{holds, moved_self}
use mongoqueue.Threads.Locks.{ne_some, some_pair}
use mongoqueue.Threads.Safety.{Reach-Good}
use mongoqueue.Threads.Turns.{on_turn, turns, turns-Reach, turns-idle, size_of}

-- The steps that a stage is from its end.
abbrev rank : Stage → ℕ
rank (reserved v) = 1
rank ready = 2
rank (edged e) = 3
rank warm = 4
rank marked = 5
rank touched = 6
rank entered = 7

rank-le : (st : Stage) {n : ℕ} → 7 ≤ n → rank st ≤ n
rank-le (reserved v) p = omega arith
rank-le ready p = omega arith
rank-le (edged e) p = omega arith
rank-le warm p = omega arith
rank-le marked p = omega arith
rank-le touched p = omega arith
rank-le entered p = omega arith

rank-pos : (st : Stage) → 1 ≤ rank st
rank-pos (reserved v) = omega arith
rank-pos ready = omega arith
rank-pos (edged e) = omega arith
rank-pos warm = omega arith
rank-pos marked = omega arith
rank-pos touched = omega arith
rank-pos entered = omega arith

-- It goes on at a later stage, or it is done and the lock is free.
abbrev Nearer : TimelineKey → ℕ → ℕ → Pc × VtimeCache → Type 0
Nearer k a n (p, c) =
    ((st : Stage) × (p ≡ inside k a st) × (rank st < n))
    ⊎ ((p ≡ idle) × ((at a c.heap).locked ≡ false))

freed :
    (a : ℕ) (f : TenantVtime → TenantVtime) (h : Heap)
    → ((t : TenantVtime) → (f t).locked ≡ false)
    → (at a (modify a f h)).locked ≡ false
freed a f [] p = refl
freed zero f (t ∷ h) p = p t
freed (suc a) f (t ∷ h) p = freed a f h p

fails-Nearer : (k : TimelineKey) (a n : ℕ) (c : VtimeCache) → Nearer k a n (fails a c)
unfolding unlocked
fails-Nearer k a n c = inr (refl, freed a unlocked c.heap (λ t. refl))

refreshed-Nearer :
    (k : TimelineKey) (a : ℕ) (c : VtimeCache) (r : Result Error (Unit {0}) × Lwm)
    → Nearer k a 5 (refreshed k a c r)
unfolding refreshed
refreshed-Nearer k a c (ok _, lwm) = inl (warm, refl, omega arith)
refreshed-Nearer k a c (err e, lwm) = fails-Nearer k a 5 (record c { lwm = lwm })

edge_read-Nearer :
    (k : TimelineKey) (a : ℕ) (c : VtimeCache) (r : Result Error ℤ)
    → Nearer k a 4 (edge_read k a c r)
unfolding edge_read
edge_read-Nearer k a c (ok e) = inl (edged e, refl, omega arith)
edge_read-Nearer k a c (err e) = fails-Nearer k a 4 c

stamped-Nearer :
    (k : TimelineKey) (a : ℕ) (c : VtimeCache) (r : Result Error ℤ) → Nearer k a 2 (stamped k a c r)
unfolding stamped
stamped-Nearer k a c (ok v) = inl (reserved v, refl, omega arith)
stamped-Nearer k a c (err e) = fails-Nearer k a 2 c

advance-Nearer :
    (w : Answers) (job : Demand) (k : TimelineKey) (a : ℕ) (st : Stage) (c : VtimeCache)
    → Nearer k a (rank st) (advance w job k a st c)
unfolding advance placed place commit abort unlocked
advance-Nearer w job k a entered c = inl (touched, refl, omega arith)
advance-Nearer w job k a touched c = inl (marked, refl, omega arith)
advance-Nearer w job k a marked c = elim (Bool-cases (at a c.heap).seeded) [
  | inl e ↦ rw e (inl (ready, refl, omega arith))
  | inr e ↦ elim (Bool-cases (at a c.heap).ever_seeded) [
    | inl f ↦ rw (e, f) (inl (warm, refl, omega arith))
    | inr f ↦ rw (e, f) (refreshed-Nearer k a c _)
  ]
]
advance-Nearer w job k a warm c = edge_read-Nearer k a c _
advance-Nearer w job k a (edged x) c = inl (ready, refl, omega arith)
advance-Nearer w job k a ready c = stamped-Nearer k a c _
advance-Nearer w job k a (reserved x) c = elim (Bool-cases w.inserted) [
  | inl e ↦ rw e (inr (refl, freed a _ c.heap (λ t. refl)))
  | inr e ↦ rw e (inr (refl, freed a _ c.heap (λ t. refl)))
]

-- A goroutine is done, and a lock is free.
abbrev pub Done : ℕ → ℕ → System → Type 0
Done a g s = (s.pc g ≡ idle) × ((at a s.cache.heap).locked ≡ false)

-- Enough turns.
pub turns-Done :
    (ws : List Answers) (g : ℕ) (s : System) (k : TimelineKey) (a : ℕ) (st : Stage)
    → s.pc g ≡ inside k a st
    → rank st ≤ size_of ws
    → Done a g (turns ws g s)
unfolding turns
turns-Done [] g s k a st e p = absurd (omega (arith, p, rank-pos st))
turns-Done (w ∷ ws) g s k a st e p =
    subst (λ q. Done a g (turns ws g (on_turn w g s q))) (sym e)
      (go (λ t st' q n. turns-Done ws g t k a st' q n) (advance w (s.call g) k a st s.cache)
        (advance-Nearer w (s.call g) k a st s.cache))
  where
    go :
        ((t : System) (st' : Stage)
          → t.pc g ≡ inside k a st'
          → rank st' ≤ size_of ws
          → Done a g (turns ws g t))
        → (r : Pc × VtimeCache) → Nearer k a (rank st) r
        → Done a g (turns ws g (go_to g r s))
    go rest (q, c) (inl (st', f, less)) =
        rest (go_to g (q, c) s) st' (moved_self g q s.pc ∙ f) (omega (arith, less, p))
    go rest (q, c) (inr (f, free)) =
        subst (Done a g) (sym (turns-idle ws g (go_to g (q, c) s) (moved_self g q s.pc ∙ f)))
          (moved_self g q s.pc ∙ f, free)

lock_entry-held : (a : ℕ) (c : VtimeCache) → lock_entry a c ≡ waits → (at a c.heap).locked ≡ true
unfolding lock_entry
lock_entry-held a c e = ground arith

lock_entry-ne_waits :
    (a : ℕ) (c : VtimeCache) → (at a c.heap).locked ≡ false → lock_entry a c ≢ waits
unfolding lock_entry
lock_entry-ne_waits a c e = ground arith

stage_of :
    (p : Pc) {k : TimelineKey} {a : ℕ} → holds p ≡ some (k, a) → (st : Stage) × (p ≡ inside k a st)
stage_of idle e = absurd (ne_some e)
stage_of (wants k) e = absurd (ne_some e)
stage_of (found k a) e = absurd (ne_some e)
stage_of (inside k a st) e = (st, ap (λ (x : TimelineKey × ℕ). inside x.0 x.1 st) (some_pair e))

-- In every state that the goroutines and Reconcile reach, if the lock of an entry has to be waited
-- for, then a goroutine holds it, and seven or more turns of that one, whatever its reads and its
-- insert answer, lead to a state, reached too, in which the lock has not to be waited for.
pub no_deadlock :
    {s : System} (a : ℕ) (ws : List Answers)
    → Reach s
    → lock_entry a s.cache ≡ waits
    → 7 ≤ size_of ws
    → (h : ℕ) × (j : TimelineKey) × (holds (s.pc h) ≡ some (j, a))
      × Reach (turns ws h s)
      × (lock_entry a (turns ws h s).cache ≢ waits)
no_deadlock {s} a ws r e p = go ((Reach-Good r).held a (lock_entry-held a s.cache e))
  where
    frees :
        (h : ℕ) (j : TimelineKey)
        → (st : Stage) × (s.pc h ≡ inside j a st)
        → (at a (turns ws h s).cache.heap).locked ≡ false
    frees h j (st, q) = (turns-Done ws h s j a st q (rank-le st p)).1

    go :
        (h : ℕ) × (j : TimelineKey) × (holds (s.pc h) ≡ some (j, a))
        → (h : ℕ) × (j : TimelineKey) × (holds (s.pc h) ≡ some (j, a))
          × Reach (turns ws h s)
          × (lock_entry a (turns ws h s).cache ≢ waits)
    go (h, j, q) =
        (h, j, q, turns-Reach ws h s r, lock_entry-ne_waits a _ (frees h j (stage_of (s.pc h) q)))
