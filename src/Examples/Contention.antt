-- ===== src/Examples/Contention.antt =====
-- Two goroutines that want the timeline of "acme".
use mongoqueue.Base.{ℕ, List, [], ◌∷◌, refl, none, some, true, ◌≡◌, ◌≢◌, arith, ok, ◌≤◌, ◌^◌}
use mongoqueue.Base.Int.{pos, quot, ◌+ℤ◌, ◌*ℤ◌, ◌-ℤ◌, neg_part, ◌<ℤ◌}
use mongoqueue.Cache.Table.{address, modify, TimelineKey, at}
use mongoqueue.Cache.{refresh_lwm, edge_of, place, lookup, lock_entry, waits, commit}
use mongoqueue.Examples.{acme}
use mongoqueue.Threads.{
  reserved, advance, refreshed, edge_read, placed, stamped, set_touched, apply_stale, wants, found,
  inside, entered, Answers, System, go_to, moved, Reach, here, next, start, begins, looks, locks,
  Demand, Stage, ready, marked, Run, touched, advances,
}
use mongoqueue.Threads.Good.{holds}
use mongoqueue.Threads.Safety.{mutual_exclusion}
use mongoqueue.Threads.Clock.{reservation-next_vstamp}
use mongoqueue.VTime.{next_vstamp, stride, max_cost}
use mongoqueue.Base.Int64.{add64, sub64, mul64, quot64, to_int64, signed, residue}
use mongoqueue.Threads.Finish.{IsFree, enqueue_finishes}
use mongoqueue.Threads.Progress.{Done, no_deadlock}
use mongoqueue.Threads.Turns.{turns-Reach, turns}
use mongoqueue.Threads.Increasing.{Unseeded, clock_at, stamps_increase}

-- Cost 2 and weight 1, and cost 3 and weight 1.
abbrev small : Demand
small = record { cost = pos 2; weight = pos 1 }

abbrev large : Demand
large = record { cost = pos 3; weight = pos 1 }

-- A goroutine wants the timeline.
abbrev begun : ℕ → Demand → System → System
begun g job s = record s { pc = moved g (wants acme) s.pc; call = moved g job s.call }

-- Goroutine 0 has just got the lock, and 1 has looked its entry up.
abbrev one_inside : System
one_inside =
    go_to 0
      (
        inside acme 0 entered,
        record (lookup acme start.cache).1 {
          heap = modify 0 (λ t. record t { locked = true }) (lookup acme start.cache).1.heap;
        },
      )
      (go_to 0 (found acme (lookup acme start.cache).0, (lookup acme start.cache).1)
        (begun 0 small start))

abbrev contended : System
contended =
    go_to 1 (found acme (lookup acme one_inside.cache).0, (lookup acme one_inside.cache).1)
      (begun 1 large one_inside)

one_inside-Reach : Reach one_inside
unfolding lookup moved lock_entry
one_inside-Reach =
    next (next (next here (begins 0 acme small refl)) (looks 0 acme refl))
      (locks 0 acme 0 _ refl refl)

contended-Reach : Reach contended
unfolding lookup moved
contended-Reach = next (next one_inside-Reach (begins 1 acme large refl)) (looks 1 acme refl)

holder_inside : holds (contended.pc 0) ≡ some (acme, 0)
unfolding lookup moved
holder_inside = refl

mutual_exclusion_example :
    (◌≡◌ {A = ℕ} 0 0) × (◌≡◌ {A = ℕ} 0 0) × (address acme contended.cache.tenants ≡ some 0)
mutual_exclusion_example = mutual_exclusion 0 0 acme 0 0 contended-Reach holder_inside holder_inside

-- No hooks, and an insert that succeeds.
abbrev answer : Answers
answer = record { hooks = record { seed_hook = none; lwm_hook = none }; inserted = true }

abbrev seven : List Answers
seven = answer ∷ answer ∷ answer ∷ answer ∷ answer ∷ answer ∷ answer ∷ []

other_waits : lock_entry 0 contended.cache ≡ waits
unfolding lock_entry lookup
other_waits = refl

no_deadlock_example :
    (h : ℕ) × (j : TimelineKey) × (holds (contended.pc h) ≡ some (j, 0))
    × Reach (turns seven h contended)
    × (lock_entry 0 (turns seven h contended).cache ≢ waits)
no_deadlock_example = no_deadlock 0 seven contended-Reach other_waits (omega arith)

-- Goroutine 0 wants the timeline, which nobody has used.
abbrev wanting : System
wanting = begun 0 small start

wanting-Reach : Reach wanting
unfolding moved
wanting-Reach = next here (begins 0 acme small refl)

at_wants : wanting.pc 0 ≡ wants acme
unfolding moved
at_wants = refl

nobody : IsFree acme wanting.cache
nobody a e = cc

enqueue_finishes_example :
    Done (lookup acme wanting.cache).0 0 (turns (answer ∷ answer ∷ seven) 0 wanting)
enqueue_finishes_example =
    enqueue_finishes 0 acme answer answer seven wanting-Reach at_wants nobody (omega arith)

abbrev six : List Answers
six = answer ∷ answer ∷ answer ∷ answer ∷ answer ∷ answer ∷ []

-- After six turns of goroutine 0, it has reserved its stamp.
with_stamp : (turns six 0 one_inside).pc 0 ≡ inside acme 0 (reserved (pos 2_000))
unfolding turns moved advance refreshed edge_read placed stamped set_touched apply_stale refresh_lwm
    edge_of place lookup next_vstamp stride max_cost add64 sub64 mul64 quot64 to_int64 signed
    residue quot ◌+ℤ◌ ◌*ℤ◌ ◌-ℤ◌
with_stamp = refl

reservation-next_vstamp_example :
    (address acme (turns six 0 one_inside).cache.tenants ≡ some 0)
    × (next_vstamp
          (at 0 (turns six 0 one_inside).cache.heap).vtime
          ((turns six 0 one_inside).call 0).cost
          ((turns six 0 one_inside).call 0).weight
        ≡ ok (pos 2_000))
reservation-next_vstamp_example =
    reservation-next_vstamp 0 acme 0 (pos 2_000) (turns-Reach six 0 one_inside one_inside-Reach)
      with_stamp

-- The insert of that stamp succeeds, and goroutine 1 enqueues a job of cost 3 on the timeline.
abbrev onward : ℕ → Stage → System → System
onward g st s = go_to g (advance answer (s.call g) acme 0 st s.cache) s

abbrev committed : System
committed = onward 0 (reserved (pos 2_000)) (turns six 0 one_inside)

abbrev second_found : System
second_found =
    go_to 1 (found acme (lookup acme committed.cache).0, (lookup acme committed.cache).1)
      (begun 1 large committed)

abbrev second_inside : System
second_inside =
    go_to 1
      (
        inside acme 0 entered,
        record second_found.cache {
          heap = modify 0 (λ t. record t { locked = true }) second_found.cache.heap;
        },
      )
      second_found

abbrev second_stamped : System
second_stamped =
    onward 1 ready (onward 1 marked (onward 1 touched (onward 1 entered second_inside)))

unfoldable second_run : Run committed second_stamped
unfolding turns moved advance refreshed edge_read placed stamped set_touched apply_stale refresh_lwm
    edge_of place lookup next_vstamp stride max_cost add64 sub64 mul64 quot64 to_int64 signed
    residue quot ◌+ℤ◌ ◌*ℤ◌ ◌-ℤ◌ commit lock_entry
second_run =
    next
      (next
        (next
          (next
            (next (next (next here (begins 1 acme large refl)) (looks 1 acme refl))
              (locks 1 acme 0 _ refl refl))
            (advances 1 acme 0 entered answer refl))
          (advances 1 acme 0 touched answer refl))
        (advances 1 acme 0 marked answer refl))
      (advances 1 acme 0 ready answer refl)

never : ⊥ → ⊥
never q = q

second_run-Unseeded : Unseeded 0 second_run
unfolding second_run
second_run-Unseeded = (((((((tt, never), never), never), never), never), never), never)

second_stamp : second_stamped.pc 1 ≡ inside acme 0 (reserved (pos 5_000))
unfolding turns moved advance refreshed edge_read placed stamped set_touched apply_stale refresh_lwm
    edge_of place lookup next_vstamp stride max_cost add64 sub64 mul64 quot64 to_int64 signed
    residue quot ◌+ℤ◌ ◌*ℤ◌ ◌-ℤ◌ commit
second_stamp = refl

low_clock : neg_part (clock_at 0 (turns six 0 one_inside).cache) ≤ 2 ^ 63
unfolding turns moved advance refreshed edge_read placed stamped set_touched apply_stale refresh_lwm
    edge_of place lookup next_vstamp stride max_cost add64 sub64 mul64 quot64 to_int64 signed
    residue quot ◌+ℤ◌ ◌*ℤ◌ ◌-ℤ◌
low_clock = omega arith

stamps_increase_example : pos 2_000 <ℤ pos 5_000
stamps_increase_example =
    stamps_increase 0 1 acme acme 0 (pos 2_000) (pos 5_000) answer
      (turns-Reach six 0 one_inside one_inside-Reach) with_stamp low_clock refl second_run
      second_run-Unseeded second_stamp
