-- ===== src/Mongo/Index.antt =====
-- The indexes that the queue asks the server for (mongo.IndexModel).
use mongoqueue.Base.{List, [], ◌∷◌, some, ◌⊎◌, String, Option, ◌≡◌, true}
use mongoqueue.Base.Int.{ℤ, pos}
use mongoqueue.Bson.{Doc, empty, entry, int}
use mongoqueue.Job.{Job, text_field}
use mongoqueue.Mongo.Language.{Language}

-- ExpireAfterSeconds is `none` where it is not set.
pub record IndexModel : Type 0 where
  pub keys : Doc
  pub name : String
  pub expire_after : Option ℤ
  pub partial_filter : Doc

-- The keys of one document before those of another.
abbrev pub then_keys : Doc → Doc → Doc
then_keys empty e = e
then_keys (entry k v d) e = entry k v (then_keys d e)

-- Fields in ascending order, before other keys.
abbrev pub ascending : List String → Doc → Doc
ascending [] d = d
ascending (k ∷ ks) d = entry k (int (pos 1)) (ascending ks d)

abbrev pub HasKey : String → Doc → Type 0
HasKey k empty = ⊥
HasKey k (entry j v d) = (j ≡ k) ⊎ HasKey k d

abbrev pub HasKeys : List String → Doc → Type 0
HasKeys [] d = Unit {0}
HasKeys (k ∷ ks) d = HasKey k d × HasKeys ks d

-- A field that all jobs selected by a filter have, with one value.
abbrev pub Fixes : Language → Doc → String → Type 0
Fixes l filter k =
    (s : String) × ((now : ℤ) (j : Job) → l.selects filter now j ≡ true → text_field k j ≡ some s)

abbrev pub FixesAll : Language → Doc → List String → Type 0
FixesAll l filter [] = Unit {0}
FixesAll l filter (k ∷ ks) = Fixes l filter k × FixesAll l filter ks

-- How a scan of the index answers a query with a filter and a sort: the index holds every job that
-- the filter selects; its leading keys are `fixed`, of which the filter fixes the values, so that
-- the scan is of one range; the sort's keys are the next ones, so that the range is in the sort's
-- order; and the fields `within`, that the rest of the filter reads, are among its keys.
pub record Serves (l : Language) (m : IndexModel) (fixed within : List String) (filter sort : Doc)
    : Type 0 where
  pub holds :
      (now : ℤ) (j : Job) → l.selects filter now j ≡ true → l.selects m.partial_filter now j ≡ true
  pub tail : Doc
  pub keys : m.keys ≡ ascending fixed (then_keys sort tail)
  pub fixes : FixesAll l filter fixed
  pub covers : HasKeys within m.keys
  pub ordered :
      (now : ℤ) (j k : Job)
      → l.selects filter now j ≡ true
      → l.selects filter now k ≡ true
      → l.precedes sort j k ≡ true
      → l.precedes m.keys j k ≡ true
