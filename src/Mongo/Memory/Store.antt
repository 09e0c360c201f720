-- ===== src/Mongo/Memory/Store.antt =====
-- Jobs in memory under their ids, and the four operations.
use mongoqueue.Base.{
  ℕ, String, Bool, true, false, ◌&&◌, Option, none, some, List, [], ◌∷◌, Result, ok, err, ◌==◌,
  if◌then◌else◌,
}
use mongoqueue.Base.Int.{ℤ}
use mongoqueue.Errors.{DriverError, no_documents, duplicate_key, other}
use mongoqueue.Bson.{Doc, Values}
use mongoqueue.Job.{Job}
use mongoqueue.Mongo.Collection.{ReturnDocument, returned}
use mongoqueue.Mongo.Memory.Query.{selects, precedes, updated}

unfoldable pub find_id : List Job → String → Option Job
find_id [] id = none
find_id (j ∷ js) id = if j.id == id then some j else find_id js id

-- The first stored version, of the jobs on a list, that passes a test.
unfoldable pub probe : List Job → (Job → Bool) → List Job → Option Job
probe db P [] = none
probe db P (j ∷ js) =
    let rest = probe db P js in
    elim (find_id db j.id) [ none ↦ rest | some k ↦ if P k then some k else rest ]

is_none : Option Job → Bool
is_none none = true
is_none (some _) = false

-- The selected jobs that no selected job precedes.
unfoldable pub is_first : Doc → Doc → ℤ → List Job → Job → Bool
unfolding is_none
is_first filter sort now db k =
    selects filter now k && is_none (probe db (λ m. selects filter now m && precedes sort m k) db)

-- An error where every selected job is preceded by another, which no sort of the queue allows.
unfoldable pub find : Doc → Doc → ℤ → List Job → Result DriverError Job
unfolding is_first
find filter sort now db = elim (probe db (is_first filter sort now db) db) [
  | some k ↦ ok k
  | none ↦ elim (probe db (selects filter now) db) [
    | none ↦ err no_documents
    | some _ ↦ err (other "the sort has no least job")
  ]
]

unfoldable pub insert : Job → List Job → Result DriverError (Unit {0}) × List Job
insert j db = elim (find_id db j.id) [ none ↦ (ok tt, j ∷ db) | some _ ↦ (err duplicate_key, db) ]

unfoldable pub update : Doc → Values → ℤ → List Job → Result DriverError ℕ × List Job
update filter set now db = elim (probe db (selects filter now) db) [
  | none ↦ (ok 0, db)
  | some k ↦ (ok 1, updated set now k ∷ db)
]

unfoldable pub found_update :
    Values
    → ReturnDocument
    → ℤ
    → List Job
    → Result DriverError Job
    → Result DriverError Job × List Job
found_update set mode now db (ok k) =
    (ok (returned mode k (updated set now k)), updated set now k ∷ db)
found_update set mode now db (err e) = (err e, db)

unfoldable pub find_update :
    Doc → Doc → Values → ReturnDocument → ℤ → List Job → Result DriverError Job × List Job
unfolding found_update find
find_update filter sort set mode now db = found_update set mode now db (find filter sort now db)
