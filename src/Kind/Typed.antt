-- ===== src/Kind/Typed.antt =====
-- A body that goes through the queue.
use mongoqueue.Base.{
  ◌≡◌, refl, some, inl, inr, ok, err, ◌∷◌, [], List, ℕ, ◌≢◌, eq_refl, Bool-cases, ◌==◌, eq_iff,
  subst, ◌∙◌, sym,
}
use mongoqueue.Errors.{kind_mismatch, wrapped}
use mongoqueue.Mongo.Language.{Language}
use mongoqueue.Mongo.Collection.{Collection}
use mongoqueue.Opts.{EnqueueOpts, NormalizedEnqueue, normalize}
use mongoqueue.Cache.{VtimeCache, lock_timeline}
use mongoqueue.Cache.Inv.{Inv}
use mongoqueue.Cache.Lock.{AllBenign}
use mongoqueue.Opts.Valid.{Accepted, NormalizeOutcome, normalize-NormalizeOutcome}
use mongoqueue.Enqueue.{Payload, Reads, hooks_of}
use mongoqueue.Enqueue.Stored.{key_of, Stored}
use mongoqueue.Enqueue.Outcome.{enqueue-Stored}
use mongoqueue.Kind.{Codec, Kind, decode, decode_body, enqueue_body}
use mongoqueue.Job.{Job}

module _ {T : Type 0} (codec : Codec T) where
  decode_same :
      (k : Kind) (j : Job) (raw : List ℕ) (body : T)
      → raw ≢ []
      → codec.unmarshal raw ≡ ok body
      → j.kind ≡ k.kind
      → j.body ≡ raw
      → decode codec k j ≡ ok body
  unfolding decode decode_body
  decode_same k j [] body n u e f = absurd (n refl)
  decode_same k j (x ∷ xs) body n u e f = rw (e, f) (rw (eq_refl k.kind) (rw (u, decode_body) refl))

  decode_other :
      (k : Kind) (j : Job)
      → j.kind ≢ k.kind
      → decode codec k j ≡ err (wrapped "decode job" kind_mismatch)
  unfolding decode
  decode_other k j n = elim (Bool-cases (j.kind == k.kind)) [
    | inl e ↦ absurd (n ((eq_iff j.kind k.kind).0 e))
    | inr e ↦ rw e refl
  ]

  -- The stored job of a body: its own binding reads the body back, and any other is refused.
  pub record Typed (k : Kind) (body : T) (j : Job) : Type 0 where
    pub own : decode codec k j ≡ ok body
    pub others :
        (k' : Kind)
        → k.kind ≢ k'.kind
        → decode codec k' j ≡ err (wrapped "decode job" kind_mismatch)

  module _ {l : Language} (c : Collection l) where
    -- A body whose marshalled form is not empty and unmarshals to it comes back from the queue:
    -- after an Enqueue that succeeds, from a cache with the invariant, with options that normalize
    -- accepts and windows that keep to IsBenign, the job is stored under the id of the options,
    -- its own binding decodes it to the body, and a binding of another kind returns
    -- ErrKindMismatch.
    pub enqueue_body-Typed :
        (k : Kind) (p : Payload) (windows : List (VtimeCache → VtimeCache)) (reads : Reads c)
        (body : T) (raw : List ℕ) (opts : EnqueueOpts) (n : NormalizedEnqueue)
        (cache locked cache' : VtimeCache) (a : ℕ) (db db' : c.Db)
        → codec.marshal body ≡ ok raw
        → codec.unmarshal raw ≡ ok body
        → raw ≢ []
        → Inv cache
        → AllBenign windows
        → normalize opts ≡ ok n
        → lock_timeline windows (key_of n) cache ≡ some (a, locked)
        → enqueue_body codec c k p windows reads body opts cache db ≡ some (ok tt, cache', db')
        → (j : Job) × (c.content db' opts.job_id ≡ some j) × Typed k body j
    unfolding enqueue_body
    enqueue_body-Typed k p windows reads body raw opts n cache locked cache' a db db' m u ne v b e f
          q =
        (
          s.added.0,
          subst (λ x. c.content db' x ≡ some s.added.0) accepted.same_id
              (s.added.2.1 n.job_id ∙ rw (s.added.1.id, eq_refl n.job_id) refl),
          record {
            own = decode_same k s.added.0 raw body ne u s.added.1.kind s.added.1.body;
            others = λ k' d. decode_other k' s.added.0 (λ q. d (sym s.added.1.kind ∙ q));
          },
        )
      where
        pl : Payload
        pl = record p { kind = k.kind; body = raw }

        accepted : Accepted opts n
        accepted = subst (NormalizeOutcome opts) e (normalize-NormalizeOutcome opts)

        s : Stored (hooks_of c reads) pl n a locked (c.content db) (c.content db') cache'
        s =
            enqueue-Stored c pl windows reads opts n cache locked cache' a db db' v b e f
              (rw (m, enqueue_body) at q)
