-- ===== src/Threads/Finish.antt =====
-- An enqueue that no other goroutine holds up.
use mongoqueue.Base.{
  ℕ, ◌≤◌, List, [], ◌∷◌, some, true, false, ◌≡◌, refl, inl, inr, sym, ◌∙◌, ap, subst, Option-cases,
}
use mongoqueue.Cache.Table.{TimelineKey, TenantVtime, Heap, fresh, at, size, address}
use mongoqueue.Cache.{VtimeCache, taken, lookup, lock_entry, on_entry}
use mongoqueue.Cache.Inv.{Inv, address-live}
use mongoqueue.Cache.Lock.{lookup-Inv}
use mongoqueue.Threads.{wants, found, entered, Answers, System, go_to, Reach}
use mongoqueue.Threads.Frame.{Calm, lookup-Calm}
use mongoqueue.Threads.Good.{moved_self}
use mongoqueue.Threads.Safety.{Reach-Good}
use mongoqueue.Threads.Progress.{Done, turns-Done}
use mongoqueue.Threads.Turns.{turns, on_turn, on_attempt, size_of}

at-past : (h : Heap) → at (size h) h ≡ fresh
at-past [] = refl
at-past (t ∷ h) = at-past h

-- The lock of the entry that a key goes to is free, or the key goes to none.
abbrev pub IsFree : TimelineKey → VtimeCache → Type 0
IsFree k c = (a : ℕ) → address k c.tenants ≡ some a → (at a c.heap).locked ≡ false

lookup-free :
    (k : TimelineKey) (c : VtimeCache) → IsFree k c → (at (lookup k c).0 c.heap).locked ≡ false
unfolding lookup
lookup-free k c f = elim (Option-cases (address k c.tenants)) [
  | inl n ↦ rw (n, lookup) (ap (λ (t : TenantVtime). t.locked) (at-past c.heap))
  | inr (a, e) ↦ rw (e, lookup) (f a e)
]

lock_entry-takes :
    (a : ℕ) (c : VtimeCache)
    → (at a c.heap).locked ≡ false
    → (at a c.heap).evicted ≡ false
    → lock_entry a c ≡ taken (on_entry a (λ t. record t { locked = true }) c)
unfolding lock_entry
lock_entry-takes a c free live = rw (free, live) refl

-- In every state that the goroutines and Reconcile reach, a goroutine that wants a timeline whose
-- lock is free, and then takes turns alone, is done after nine of them or more, whatever its reads
-- and its insert answer, and the lock of the entry that it looked up is free again.
pub enqueue_finishes :
    {s : System} (g : ℕ) (k : TimelineKey) (w w' : Answers) (ws : List Answers)
    → Reach s
    → s.pc g ≡ wants k
    → IsFree k s.cache
    → 7 ≤ size_of ws
    → Done (lookup k s.cache).0 g (turns (w ∷ w' ∷ ws) g s)
unfolding turns on_attempt
enqueue_finishes {s} g k w w' ws r e f p =
    subst (λ q. Done a g (turns (w' ∷ ws) g (on_turn w g s q))) (sym e)
      (subst (λ q. Done a g (turns ws g (on_turn w' g s1 q))) (sym (moved_self g _ s.pc))
        (subst (λ t. Done a g (turns ws g (on_attempt g s1 k a t))) (sym takes)
          (turns-Done ws g _ k a entered (moved_self g _ s1.pc) p)))
  where
    a : ℕ
    a = (lookup k s.cache).0

    v : Inv s.cache
    v = (Reach-Good r).inv

    s1 : System
    s1 = go_to g (found k a, (lookup k s.cache).1) s

    m : Calm s.cache s1.cache
    m = lookup-Calm k s.cache v

    takes : lock_entry a s1.cache ≡ taken (on_entry a (λ t. record t { locked = true }) s1.cache)
    takes =
        lock_entry-takes a s1.cache ((m.flags a).same_locked ∙ lookup-free k s.cache f)
          (address-live s1.cache.heap s1.cache.tenants k a (lookup-Inv k s.cache v).0.sound
            (lookup-Inv k s.cache v).1).1
