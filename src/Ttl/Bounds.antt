-- ===== src/Ttl/Bounds.antt =====
-- The retentions that EnsureTTLIndex accepts.
use mongoqueue.Base.{
  ok, some, ◌↔◌, true, err, Result, ℕ, ◌<◌, ◌⊎◌, ◌^◌, ◌*◌, ◌≤◌, ◌≡◌, ◌+◌, refl, suc, inl, inr,
  Bool-cases, ◌/◌, ◌||◌, arith,
}
use mongoqueue.Base.Int.{ℤ, pos, quot, negsuc, sub_ℕ, ltb_ℤ}
use mongoqueue.Base.Int64.{quot64, to_int64, quot64_pos, to_int64-eq_self}
use mongoqueue.Errors.{Error, DriverError, ttl_retention, wrapped, driver}
use mongoqueue.Mongo.Index.{IndexModel}
use mongoqueue.Ttl.Partial.{ttl_index-IsResolved}
use mongoqueue.Mongo.Language.{Language}
use mongoqueue.Job.{Job}
use mongoqueue.Bson.{int, entry, empty}
use mongoqueue.Ttl.{ensure_ttl_index, ttl_index, created, max_int32}

-- An index by resolved_at that collects a resolved job, and no other, `s` seconds after that time.
pub record IsTtlIndex (l : Language) (s : ℕ) (m : IndexModel) : Type 0 where
  pub keys : m.keys ≡ entry "resolved_at" (int (pos 1)) empty
  pub name : m.name ≡ "mongoqueue_ttl"
  pub expire_after : m.expire_after ≡ some (pos s)
  pub resolved_only :
      (now : ℤ) (j : Job) → (l.selects m.partial_filter now j ≡ true) ↔ (j.liveness ≡ "resolved")

-- What becomes of the server's answer.
abbrev pub Reported : Result DriverError (Unit {0}) → Result Error (Unit {0}) → Type 0
Reported (ok _) r = r ≡ ok tt
Reported (err e) r = r ≡ err (wrapped "create TTL index" (driver e))

-- The server is asked for an index with the whole seconds of the retention.
pub record Asked (l : Language) (create : IndexModel → Result DriverError (Unit {0})) (n : ℕ)
    (r : Result Error (Unit {0})) : Type 0 where
  pub model : IndexModel
  pub seconds : ℕ
  pub is_index : IsTtlIndex l seconds model
  pub positive : 1 ≤ seconds
  pub below : seconds < 2 ^ 31
  pub at_most : seconds * 1_000_000_000 ≤ n
  pub rest_below : n < seconds * 1_000_000_000 + 1_000_000_000
  pub reported : Reported (create model) r

-- Either the retention is out of range and the server is not asked, or it is asked for the index.
abbrev pub TtlOutcome :
    Language → (IndexModel → Result DriverError (Unit {0})) → ℕ → Result Error (Unit {0}) → Type 0
TtlOutcome l create n r =
    (((n < 1_000_000_000) ⊎ (2 ^ 31 * 1_000_000_000 ≤ n)) × (r ≡ err ttl_retention))
    ⊎ Asked l create n r

ttl_index-IsTtlIndex : (l : Language) (s : ℕ) → IsTtlIndex l s (ttl_index (pos s))
ttl_index-IsTtlIndex l s = record {
  keys = refl;
  name = refl;
  expire_after = refl;
  resolved_only = ttl_index-IsResolved l (pos s);
}

created-Reported : (r : Result DriverError (Unit {0})) → Reported r (created r)
unfolding created
created-Reported (ok _) = refl
created-Reported (err e) = refl

-- For a retention of n nanoseconds, n below 2^63: if it is at least a second and less than 2^31
-- seconds, EnsureTTLIndex asks the server for an ascending index by resolved_at, named
-- mongoqueue_ttl, over the resolved jobs, that expires after the whole seconds of the retention, at
-- least 1 and below 2^31, and reports the server's answer; any other retention gives
-- ErrTTLRetention.
pub ensure_ttl_index-TtlOutcome :
    (l : Language) (create : IndexModel → Result DriverError (Unit {0})) (n : ℕ)
    → n < 2 ^ 63
    → TtlOutcome l create n (ensure_ttl_index create (pos n))
unfolding ensure_ttl_index
ensure_ttl_index-TtlOutcome l create n h =
    rw (quot64_pos n 1_000_000_000 h)
      (elim (Bool-cases
        (ltb_ℤ (pos (n / 1_000_000_000)) (pos 1) || ltb_ℤ max_int32 (pos (n / 1_000_000_000)))) [
          | inl bad ↦ inl (ground arith, rw bad refl)
          | inr good ↦ inr (record {
            model = ttl_index (pos (n / 1_000_000_000));
            seconds = n / 1_000_000_000;
            is_index = ttl_index-IsTtlIndex l (n / 1_000_000_000);
            positive = ground arith;
            below = ground arith;
            at_most = omega arith;
            rest_below = omega arith;
            reported = rw good (created-Reported (create (ttl_index (pos (n / 1_000_000_000)))));
          })
        ])

-- A negative retention is refused before the server is asked.
pub negative_retention :
    (create : IndexModel → Result DriverError (Unit {0})) (n : ℕ)
    → n < 2 ^ 63
    → ensure_ttl_index create (negsuc n) ≡ err ttl_retention
unfolding ensure_ttl_index quot64 quot to_int64
negative_retention create n h =
    rw (to_int64-eq_self (sub_ℕ 0 (suc n / 1_000_000_000)) (ground arith)) (ground arith)
