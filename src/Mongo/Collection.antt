-- ===== src/Mongo/Collection.antt =====
-- The collection: its content by _id, and what each operation of the driver may do to it. An
-- operation that returns another error may have taken effect or not.
use mongoqueue.Base.{
  ℕ, zero, suc, String, ◌≡◌, ◌⊎◌, true, false, Option, none, some, Result, ok, err, ◌==◌,
  if◌then◌else◌,
}
use mongoqueue.Base.Int.{ℤ}
use mongoqueue.Errors.{DriverError, no_documents, duplicate_key, other}
use mongoqueue.Bson.{Doc, Values}
use mongoqueue.Job.{Job}
use mongoqueue.Mongo.Language.{Language}

-- The stored job under each _id.
abbrev pub Content : Type 0
Content = String → Option Job

abbrev pub Same : Content → Content → Type 0
Same c c' = (id : String) → c' id ≡ c id

-- The content with one job written under an _id.
abbrev pub Wrote : String → Job → Content → Content → Type 0
Wrote id j c c' = (k : String) → c' k ≡ (if id == k then some j else c k)

abbrev pub InsertOutcome : Job → Content → Content → Result DriverError (Unit {0}) → Type 0
InsertOutcome j c c' (ok _) = (c j.id ≡ none) × Wrote j.id j c c'
InsertOutcome j c c' (err duplicate_key) = ((k : Job) × (c j.id ≡ some k)) × Same c c'
InsertOutcome j c c' (err no_documents) = ⊥
InsertOutcome j c c' (err (other _)) = Same c c' ⊎ ((c j.id ≡ none) × Wrote j.id j c c')

pub data ReturnDocument : Type 0 where
  before after : ReturnDocument

abbrev pub returned : ReturnDocument → Job → Job → Job
returned before old new = old
returned after old new = new

module _ (l : Language) where
  -- No stored job matches.
  abbrev pub NoMatch : Doc → ℤ → Content → Type 0
  NoMatch filter now c = (id : String) (j : Job) → c id ≡ some j → l.selects filter now j ≡ false

  -- A stored job that matches.
  pub record Match (filter : Doc) (now : ℤ) (c : Content) (j : Job) : Type 0 where
    pub stored : c j.id ≡ some j
    pub selected : l.selects filter now j ≡ true

  -- A match that no match precedes.
  pub record First (filter sort : Doc) (now : ℤ) (c : Content) (j : Job) : Type 0 where
    pub stored : c j.id ≡ some j
    pub selected : l.selects filter now j ≡ true
    pub least :
        (id : String) (k : Job)
        → c id ≡ some k
        → l.selects filter now k ≡ true
        → l.precedes sort k j ≡ false

  -- One match is updated.
  abbrev pub Updates : Doc → Values → ℤ → Content → Content → Type 0
  Updates filter update now c c' =
      (j : Job) × Match filter now c j × Wrote j.id (l.updated update now j) c c'

  abbrev pub UpdateOutcome : Doc → Values → ℤ → Content → Content → Result DriverError ℕ → Type 0
  UpdateOutcome filter update now c c' (ok zero) = NoMatch filter now c × Same c c'
  UpdateOutcome filter update now c c' (ok (suc zero)) = Updates filter update now c c'
  UpdateOutcome filter update now c c' (ok (suc (suc _))) = ⊥
  UpdateOutcome filter update now c c' (err _) = Same c c' ⊎ Updates filter update now c c'

  abbrev pub FindOutcome : Doc → Doc → Doc → ℤ → Content → Result DriverError Job → Type 0
  FindOutcome filter sort projection now c (ok r) =
      (j : Job) × First filter sort now c j × (r ≡ l.project projection j)
  FindOutcome filter sort projection now c (err no_documents) = NoMatch filter now c
  FindOutcome filter sort projection now c (err duplicate_key) = ⊥
  FindOutcome filter sort projection now c (err (other _)) = Unit {0}

  -- The first match is updated.
  abbrev pub UpdatesFirst : Doc → Doc → Values → ℤ → Content → Content → Type 0
  UpdatesFirst filter sort update now c c' =
      (j : Job) × First filter sort now c j × Wrote j.id (l.updated update now j) c c'

  abbrev pub FindUpdateOutcome :
      Doc → Doc → Values → ReturnDocument → ℤ → Content → Content → Result DriverError Job → Type 0
  FindUpdateOutcome filter sort update mode now c c' (ok r) =
      (j : Job) × First filter sort now c j
      × Wrote j.id (l.updated update now j) c c'
      × (r ≡ returned mode j (l.updated update now j))
  FindUpdateOutcome filter sort update mode now c c' (err no_documents) =
      NoMatch filter now c × Same c c'
  FindUpdateOutcome filter sort update mode now c c' (err duplicate_key) = ⊥
  FindUpdateOutcome filter sort update mode now c c' (err (other _)) =
      Same c c' ⊎ UpdatesFirst filter sort update now c c'

-- `Db` is the collection on the server, with whatever decides whether an operation fails. The
-- number that an operation takes is the server time at which it runs.
pub record Collection (l : Language) : Type 1 where
  pub Db : Type 0
  pub content : Db → Content
  pub insert_one : Job → Db → Result DriverError (Unit {0}) × Db
  pub update_one : Doc → Values → ℤ → Db → Result DriverError ℕ × Db
  pub find_one : Doc → Doc → Doc → ℤ → Db → Result DriverError Job
  pub find_one_and_update :
      Doc → Doc → Values → ReturnDocument → ℤ → Db → Result DriverError Job × Db
  pub id_stored : (db : Db) (id : String) (j : Job) → content db id ≡ some j → j.id ≡ id
  pub insert_one_outcome :
      (j : Job) (db : Db)
      → InsertOutcome j (content db) (content (insert_one j db).1) (insert_one j db).0
  pub update_one_outcome :
      (filter : Doc) (update : Values) (now : ℤ) (db : Db)
      → UpdateOutcome l filter update now
          (content db)
          (content (update_one filter update now db).1)
          (update_one filter update now db).0
  pub find_one_outcome :
      (filter sort projection : Doc) (now : ℤ) (db : Db)
      → FindOutcome l filter sort projection now
          (content db)
          (find_one filter sort projection now db)
  pub find_one_and_update_outcome :
      (filter sort : Doc) (update : Values) (mode : ReturnDocument) (now : ℤ) (db : Db)
      → FindUpdateOutcome l filter sort update mode now
          (content db)
          (content (find_one_and_update filter sort update mode now db).1)
          (find_one_and_update filter sort update mode now db).0
