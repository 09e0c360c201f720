-- ===== src/Examples/Upkeep.antt =====
-- A pass of Reconcile, a typed body, and the retention of the TTL index.
use mongoqueue.Base.Int.{pos, ℤ}
use mongoqueue.Examples.Inserts.{
  mail_payload, mail_normal, all_reads, after_cache, after_db, normal_lem, run_lem,
}
use mongoqueue.Examples.Timelines.{one_timeline-Inv, walk_windows, relocked, relocked_lem}
use mongoqueue.Mongo.Memory.Query.{memory_language}
use mongoqueue.Base.{refl, none, some, ok, err, true, ◌∷◌, [], String, Result, ℕ, ◌≡◌, arith, Bool}
use mongoqueue.Reconcile.Marks.{MarkOutcome, reconcile-MarkOutcome}
use mongoqueue.Reconcile.Refreshes.{Reconciled, live, reconcile-Reconciled}
use mongoqueue.Kind.{Codec, Kind, enqueue_body}
use mongoqueue.Job.{Job}
use mongoqueue.Ttl.Bounds.{TtlOutcome, ensure_ttl_index-TtlOutcome}
use mongoqueue.Cache.{invalidate_and_evict}
use mongoqueue.Examples.{one_timeline, mail_opts, stored}
use mongoqueue.Mongo.Memory.Outcome.{memory}
use mongoqueue.Ttl.{ensure_ttl_index}
use mongoqueue.Errors.{Error, other, driver}
use mongoqueue.Cache.Walk.{invalidate_and_evict-IsBenign}
use mongoqueue.Reconcile.{reconcile, Round}
use mongoqueue.Kind.Typed.{Typed, enqueue_body-Typed}

-- Every partition's frontier is at 900.
abbrev at_900 : String → Result Error (ℤ × Bool)
at_900 p = ok (pos 900, true)

reconcile-Reconciled_example :
    Reconciled at_900 one_timeline
      (reconcile none (live at_900) (λ d. d) one_timeline).1
      (reconcile none (live at_900) (λ d. d) one_timeline).0
reconcile-Reconciled_example = reconcile-Reconciled at_900 one_timeline one_timeline-Inv

-- A codec of one number, which is its own body.
abbrev number : Codec ℕ
number = record {
  marshal = λ n. ok (n ∷ []);
  unmarshal = λ raw. elim raw [ [] ↦ err (other "no document") | n ∷ ns ↦ ok n ];
  zero_value = 0;
}

abbrev mail : Kind
mail = record { kind = "mail" }

typed_run :
    enqueue_body number memory mail mail_payload
      (invalidate_and_evict ∷ [])
      all_reads
      7
      mail_opts
      one_timeline
      stored
    ≡ some (ok tt, after_cache, after_db)
unfolding enqueue_body
typed_run = run_lem

enqueue_body-Typed_example :
    (j : Job) × (memory.content after_db "n" ≡ some j) × Typed number mail 7 j
enqueue_body-Typed_example =
    enqueue_body-Typed number memory mail mail_payload (invalidate_and_evict ∷ []) all_reads 7
      (7 ∷ []) mail_opts mail_normal one_timeline relocked after_cache 1 stored after_db refl refl
      (λ e. cc) one_timeline-Inv walk_windows normal_lem relocked_lem typed_run

ensure_ttl_index-TtlOutcome_example :
    TtlOutcome memory_language
      (λ m. ok tt)
      90_500_000_000
      (ensure_ttl_index (λ m. ok tt) (pos 90_500_000_000))
ensure_ttl_index-TtlOutcome_example =
    ensure_ttl_index-TtlOutcome memory_language (λ m. ok tt) 90_500_000_000 (omega arith)

-- The read of the only partition fails, on a context that has died.
abbrev dying : String → Round
dying p = record {
  others = invalidate_and_evict;
  dead_before = none;
  hooks = record { seed_hook = none; lwm_hook = some (λ q. err (driver (other "timeout"))) };
  dead_after = true;
}

reconcile-MarkOutcome_example :
    MarkOutcome none one_timeline (reconcile none dying (λ d. d) one_timeline)
reconcile-MarkOutcome_example =
    reconcile-MarkOutcome none dying (λ d. d) one_timeline
      (λ p d v. invalidate_and_evict-IsBenign.keeps d v) (λ d v. v) one_timeline-Inv
