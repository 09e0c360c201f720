-- ===== src/Threads/Turns.antt =====
-- Turns of one goroutine while the others rest.
use mongoqueue.Base.{ℕ, suc, List, [], ◌∷◌, ◌≡◌, refl, ap, ◌∙◌}
use mongoqueue.Cache.Table.{TimelineKey}
use mongoqueue.Cache.{Attempt, taken, orphan, lookup, lock_entry, waits}
use mongoqueue.Threads.{
  looks, locks, retries, Pc, idle, inside, entered, Answers, advance, System, go_to, Reach, wants,
  found, next, advances,
}

-- What a goroutine makes of its try of an entry's lock.
unfoldable pub on_attempt : ℕ → System → TimelineKey → ℕ → Attempt → System
on_attempt g s k a (taken c) = go_to g (inside k a entered, c) s
on_attempt g s k a orphan = go_to g (wants k, s.cache) s
on_attempt g s k a waits = s

-- A turn of one goroutine: a step, unless it is idle or waits for a lock.
abbrev pub on_turn : Answers → ℕ → System → Pc → System
on_turn w g s idle = s
on_turn w g s (wants k) = go_to g (found k (lookup k s.cache).0, (lookup k s.cache).1) s
on_turn w g s (found k a) = on_attempt g s k a (lock_entry a s.cache)
on_turn w g s (inside k a st) = go_to g (advance w (s.call g) k a st s.cache) s

unfoldable pub turns : List Answers → ℕ → System → System
turns [] g s = s
turns (w ∷ ws) g s = turns ws g (on_turn w g s (s.pc g))

-- Turns are steps of the system.
turn-Reach : (w : Answers) (g : ℕ) (s : System) → Reach s → Reach (on_turn w g s (s.pc g))
unfolding on_attempt
turn-Reach w g s r = go (s.pc g) refl
  where
    tried :
        (k : TimelineKey) (a : ℕ)
        → s.pc g ≡ found k a
        → (t : Attempt) → lock_entry a s.cache ≡ t
        → Reach (on_attempt g s k a t)
    tried k a e (taken c) q = next r (locks g k a c e q)
    tried k a e orphan q = next r (retries g k a e q)
    tried k a e waits q = r

    go : (p : Pc) → s.pc g ≡ p → Reach (on_turn w g s p)
    go idle e = r
    go (wants k) e = next r (looks g k e)
    go (found k a) e = tried k a e (lock_entry a s.cache) refl
    go (inside k a st) e = next r (advances g k a st w e)

pub turns-Reach : (ws : List Answers) (g : ℕ) (s : System) → Reach s → Reach (turns ws g s)
unfolding turns
turns-Reach [] g s r = r
turns-Reach (w ∷ ws) g s r = turns-Reach ws g _ (turn-Reach w g s r)

-- Once it is done, its turns change nothing.
pub turns-idle : (ws : List Answers) (g : ℕ) (s : System) → s.pc g ≡ idle → turns ws g s ≡ s
unfolding turns
turns-idle [] g s e = refl
turns-idle (w ∷ ws) g s e = ap (turns ws g) (ap (on_turn w g s) e) ∙ turns-idle ws g s e

abbrev pub size_of : List Answers → ℕ
size_of [] = 0
size_of (w ∷ ws) = suc (size_of ws)
