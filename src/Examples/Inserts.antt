-- ===== src/Examples/Inserts.antt =====
-- A call of enqueue, run on the jobs in memory: a walk evicts its timeline between the lookup and
-- the lock, so it seeds a new entry from the pending jobs.
use mongoqueue.Frontier.{
  decoded, or_else, located, seeded_from, first_vstamp, seed_tenant_vtime, compute_lwm,
}
use mongoqueue.Mongo.Memory.Store.{probe, find_id}
use mongoqueue.Job.{text_field, Job}
use mongoqueue.Base.Int.{pos, quot, ◌+ℤ◌, ◌*ℤ◌, ◌-ℤ◌, ℤ}
use mongoqueue.Base.{
  refl, some, ok, true, ◌∷◌, Result, [], ◌≡◌, true≢false, sym, none, inl, inr, Option, String,
  subst, Bool-cases, ◌==◌, arith,
}
use mongoqueue.Enqueue.{
  Payload, Reads, new_job, enqueue, enqueue_normalized, insert, settle, hooks_of,
}
use mongoqueue.Opts.{NormalizedEnqueue, normalize}
use mongoqueue.Cache.{
  VtimeCache, invalidate_and_evict, lock_timeline, lookup, lock_entry, locked_at, walk, visit,
  reserve_locked, touch, stamp_at, stamp_seeded, seed, seed_edge, place, edge_of, refresh_lwm,
  store_lwm, unlocked, commit,
}
use mongoqueue.Mongo.Memory.Outcome.{memory}
use mongoqueue.Examples.{stored, idle_entry, jobs, mail_opts, acme, one_timeline}
use mongoqueue.VTime.{normalize_cost, normalize_weight, next_vstamp, stride, max_cost}
use mongoqueue.Errors.{Error}
use mongoqueue.Cache.Table.{fresh}
use mongoqueue.Enqueue.Stored.{EnqueueOutcome}
use mongoqueue.Enqueue.Outcome.{enqueue-EnqueueOutcome}
use mongoqueue.Examples.Timelines.{relocked, one_timeline-Inv, walk_windows, relocked_lem}
use mongoqueue.Base.Int64.{add64, sub64, mul64, quot64, to_int64, signed, residue, IsInt64}
use mongoqueue.Enqueue.Placement.{AtFrontier, enqueue-AtFrontier}
use mongoqueue.Enqueue.Order.{Int64Stamps, InOrder, enqueue-InOrder}

abbrev pub mail_payload : Payload
mail_payload = record {
  kind = "mail";
  body = 7 ∷ [];
  node_id = "node";
  clock = pos 3_000_000;
  date_of = λ n. n;
}

abbrev pub mail_normal : NormalizedEnqueue
mail_normal = record {
  job_id = "n";
  tenant_id = "acme";
  partition = "default";
  cost = pos 2;
  weight = pos 1;
  delay = pos 0;
}

abbrev pub all_reads : Reads memory
all_reads = record { now = pos 100; at_clock = stored; at_fallback = stored; at_seed = stored }

pub normal_lem : normalize mail_opts ≡ ok mail_normal
unfolding normalize normalize_cost normalize_weight
normal_lem = refl

enqueue-EnqueueOutcome_example :
    (r : Result Error (Unit {0})) × (cache' : VtimeCache) × (db' : memory.Db) × (enqueue memory
        mail_payload
        (invalidate_and_evict ∷ [])
        all_reads
        mail_opts
        one_timeline
        stored
      ≡ some (r, cache', db'))
    × EnqueueOutcome
        (hooks_of memory all_reads)
        mail_payload
        mail_normal
        1
        relocked
        r
        cache'
        (memory.content stored)
        (memory.content db')
enqueue-EnqueueOutcome_example =
    enqueue-EnqueueOutcome memory mail_payload (invalidate_and_evict ∷ []) all_reads mail_opts
      mail_normal one_timeline relocked 1 stored one_timeline-Inv walk_windows normal_lem
      relocked_lem

-- The cache and the collection after the call: one stride of 2,000 above the pending job at 2,000.
abbrev pub after_cache : VtimeCache
after_cache = record {
  heap =
      record idle_entry { evicted = true }
      ∷ record fresh { vtime = pos 4_000; seeded = true; ever_seeded = true; touched = true }
      ∷ [];
  tenants = (acme, 1) ∷ [];
  lwm = ("default", pos 1_000) ∷ [];
}

unfoldable pub after_db : memory.Db
unfolding memory
after_db = new_job mail_payload mail_normal (pos 4_000) ∷ jobs

pub run_lem :
    enqueue memory mail_payload (invalidate_and_evict ∷ []) all_reads mail_opts one_timeline stored
    ≡ some (ok tt, after_cache, after_db)
unfolding probe text_field stored after_db memory enqueue enqueue_normalized insert settle normalize
    normalize_cost normalize_weight lock_timeline lookup lock_entry locked_at invalidate_and_evict
    walk visit reserve_locked touch stamp_at stamp_seeded seed seed_edge place edge_of refresh_lwm
    store_lwm unlocked commit first_vstamp decoded or_else located seeded_from seed_tenant_vtime
    compute_lwm next_vstamp stride max_cost add64 sub64 mul64 quot64 to_int64 signed residue quot
    ◌+ℤ◌ ◌*ℤ◌ ◌-ℤ◌
run_lem = refl

stamp_or_zero : Option Job → ℤ
stamp_or_zero none = pos 0
stamp_or_zero (some j) = j.vstamp

small : (id : String) → IsInt64 (stamp_or_zero (memory.content stored id))
unfolding stored memory find_id stamp_or_zero
small id = elim (Bool-cases ("b" == id)) [
  | inl e ↦ rw e (omega arith, omega arith)
  | inr e ↦ rw e (elim (Bool-cases ("a" == id)) [
    | inl f ↦ rw f (omega arith, omega arith)
    | inr f ↦ rw f (elim (Bool-cases ("h" == id)) [
      | inl g ↦ rw g (omega arith, omega arith)
      | inr g ↦ rw g (omega arith, omega arith)
    ])
  ])
]

stored-Int64Stamps : Int64Stamps (memory.content stored)
unfolding stamp_or_zero
stored-Int64Stamps id j e = subst (λ o. IsInt64 (stamp_or_zero o)) e (small id)

enqueue-InOrder_example :
    InOrder mail_payload mail_normal 1 (memory.content stored) (memory.content after_db) after_cache
enqueue-InOrder_example =
    enqueue-InOrder memory all_reads mail_payload mail_normal stored (λ id j e o. (j, e, o, refl))
      stored-Int64Stamps (invalidate_and_evict ∷ []) mail_opts one_timeline relocked after_cache 1
      after_db one_timeline-Inv walk_windows normal_lem relocked_lem
      (λ cu. absurd (true≢false (sym cu.0))) run_lem

enqueue-AtFrontier_example :
    AtFrontier memory all_reads mail_payload mail_normal relocked.lwm
      (memory.content stored)
      (memory.content after_db)
enqueue-AtFrontier_example =
    enqueue-AtFrontier memory all_reads mail_payload (invalidate_and_evict ∷ []) mail_opts
      mail_normal one_timeline relocked after_cache 1 stored after_db one_timeline-Inv walk_windows
      normal_lem relocked_lem refl refl run_lem
