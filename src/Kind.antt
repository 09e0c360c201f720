-- ===== src/Kind.antt =====
-- kind.go: the pairing of a kind string with a body type, whose BSON codec is a parameter.
pub mod Typed
use mongoqueue.Base.{
  String, Option, none, some, List, [], ◌∷◌, Result, ok, err, ◌==◌, if◌then◌else◌, ℕ, not,
}
use mongoqueue.Errors.{Error, DriverError, kind_mismatch, driver, wrapped}
use mongoqueue.Job.{Job}
use mongoqueue.Mongo.Language.{Language}
use mongoqueue.Mongo.Collection.{Collection}
use mongoqueue.Opts.{EnqueueOpts}
use mongoqueue.Cache.{VtimeCache}
use mongoqueue.Enqueue.{Payload, Reads, Enqueued, enqueue}

-- bson.Marshal and bson.Unmarshal at the body type, and the type's zero value.
pub record Codec (T : Type 0) : Type 0 where
  pub marshal : T → Result DriverError (List ℕ)
  pub unmarshal : List ℕ → Result DriverError T
  pub zero_value : T

pub record Kind : Type 0 where
  pub kind : String

-- `none` where NewKind panics.
unfoldable pub new_kind : String → Option Kind
new_kind kind = if kind == "" then none else some (record { kind = kind })

module _ {T : Type 0} (codec : Codec T) where
  decode_body : List ℕ → Result Error T
  decode_body [] = ok codec.zero_value
  decode_body (b ∷ bs) = elim (codec.unmarshal (b ∷ bs)) [
    | ok body ↦ ok body
    | err e ↦ err (wrapped "decode job body" (driver e))
  ]

  pub decode : Kind → Job → Result Error T
  unfolding decode_body
  decode k j =
      if not (j.kind == k.kind)
      then err (wrapped "decode job" kind_mismatch)
      else decode_body j.body

  module _ {l : Language} (c : Collection l) where
    -- The kind and the body of the payload are the binding's and the marshalled one.
    unfoldable pub enqueue_body :
        Kind
        → Payload
        → List (VtimeCache → VtimeCache)
        → Reads c
        → T
        → EnqueueOpts
        → VtimeCache
        → c.Db
        → Enqueued c
    enqueue_body k p windows reads body opts cache db = elim (codec.marshal body) [
      | ok raw ↦ enqueue c (record p { kind = k.kind; body = raw }) windows reads opts cache db
      | err e ↦ some (err (wrapped "marshal body" (driver e)), cache, db)
    ]
