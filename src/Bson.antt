-- ===== src/Bson.antt =====
-- The BSON documents that the queue builds (bson.D, bson.A): filters, sorts and update stages.
use mongoqueue.Base.{String}
use mongoqueue.Base.Int.{ℤ}

mutual
  pub data Value : Type 0 where
    text : String → Value
    int : ℤ → Value
    date : ℤ → Value  -- milliseconds since the epoch
    object : Doc → Value
    array : Values → Value
    missing : Value

  pub data Doc : Type 0 where
    empty : Doc
    entry : String → Value → Doc → Doc

  pub data Values : Type 0 where
    stop : Values
    item : Value → Values → Values

-- mongo.Pipeline{{{Key: "$set", Value: set}}}
abbrev pub set_pipeline : Doc → Values
set_pipeline set = item (object (entry "$set" (object set) empty)) stop
