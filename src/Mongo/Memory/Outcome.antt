-- ===== src/Mongo/Memory/Outcome.antt =====
-- The operations in memory against the documented outcomes.
use mongoqueue.Bson.{object, stop, item, empty, entry, text, int, date, Doc, Value, Values}
use mongoqueue.Base.{
  String, ◌≡◌, none, some, inl, inr, true, false, List, Bool, ◌∷◌, arith, eq_iff, Option-cases,
  Bool-cases, [], subst, sym, refl, ok, ◌∙◌, err, ◌&&◌, Result,
}
use mongoqueue.Mongo.Memory.Store.{
  find_id, probe, insert, update, is_first, find, find_update, found_update,
}
use mongoqueue.Job.{Job, assign}
use mongoqueue.Mongo.Memory.Query.{
  assigned, updated, or_same, memory_language, eval, selects, precedes,
}
use mongoqueue.Mongo.Collection.{
  Wrote, Match, NoMatch, InsertOutcome, UpdateOutcome, First, FindOutcome, ReturnDocument,
  Collection, FindUpdateOutcome,
}
use mongoqueue.Base.Int.{ℤ}
use mongoqueue.Errors.{DriverError, other, no_documents, duplicate_key}

pub find_id-id : (db : List Job) (id : String) (j : Job) → find_id db id ≡ some j → j.id ≡ id
unfolding find_id
find_id-id [] id j e = cc
find_id-id (k ∷ js) id j e = ground (arith, eq_iff k.id id, find_id-id js id j)

module _ (db : List Job) (P : Job → Bool) where
  probe_sound :
      (js : List Job) (k : Job) → probe db P js ≡ some k → (find_id db k.id ≡ some k) × (P k ≡ true)
  unfolding probe
  probe_sound [] k e = cc
  probe_sound (j ∷ js) k e = elim (Option-cases (find_id db j.id)) [
    | inl n ↦ probe_sound js k (ground (arith, n))
    | inr (m, s) ↦ elim (Bool-cases (P m)) [
      | inl p ↦
          subst (λ x. (find_id db x.id ≡ some x) × (P x ≡ true)) (same m s p)
            (subst (λ y. find_id db y ≡ some m) (sym (find_id-id db j.id m s)) s, p)
      | inr q ↦ probe_sound js k (ground (arith, s, q))
    ]
  ]
    where
      same : (m : Job) → find_id db j.id ≡ some m → P m ≡ true → m ≡ k
      same m s p = ground (arith, s, p)

  probe_complete :
      (js : List Job) (id : String) (m k : Job)
      → probe db P js ≡ none
      → find_id js id ≡ some m
      → find_id db id ≡ some k
      → P k ≡ false
  unfolding probe find_id
  probe_complete [] id m k e f g = cc
  probe_complete (j ∷ js) id m k e f g = ground (arith, eq_iff j.id id, probe_complete js id m k)

assign-id : (k : String) (v : Value) (j : Job) → (or_same j (assign k v j)).id ≡ j.id
unfolding assign
assign-id k (text s) j = ground arith
assign-id k (date t) j = ground arith
assign-id k (int n) j = ground arith
assign-id k _ j = refl

assigned-id : (d : Doc) (now : ℤ) (o j : Job) → (assigned d now o j).id ≡ j.id
unfolding assigned
assigned-id empty now o j = refl
assigned-id (entry k v d) now o j =
    assigned-id d now o (or_same j (assign k (eval v now o) j)) ∙ assign-id k (eval v now o) j

updated-id : (set : Values) (now : ℤ) (j : Job) → (updated set now j).id ≡ j.id
unfolding updated
updated-id (item (object (entry op (object set) empty)) stop) now j = assigned-id set now j j
updated-id _ now j = refl

-- Adding a version of a job writes it under its id.
cons-Wrote :
    (db : List Job) (id : String) (j : Job) → j.id ≡ id → Wrote id j (find_id db) (find_id (j ∷ db))
unfolding find_id
cons-Wrote db id j e k = rw e

pub insert-outcome :
    (j : Job) (db : List Job)
    → InsertOutcome j (find_id db) (find_id (insert j db).1) (insert j db).0
unfolding insert
insert-outcome j db = elim (Option-cases (find_id db j.id)) [
  | inl n ↦ rw (n, insert) (n, cons-Wrote db j.id j refl)
  | inr (k, s) ↦ rw (s, insert) ((k, s), λ id. refl)
]

module _ (filter : Doc) (now : ℤ) (db : List Job) where
  probe-Match :
      (k : Job)
      → probe db (selects filter now) db ≡ some k
      → Match memory_language filter now (find_id db) k
  unfolding memory_language
  probe-Match k e =
      let (s, p) = probe_sound db (selects filter now) db k e in record { stored = s; selected = p }

  probe-NoMatch :
      probe db (selects filter now) db ≡ none → NoMatch memory_language filter now (find_id db)
  unfolding memory_language
  probe-NoMatch e id j s = probe_complete db (selects filter now) db id j j e s s

  pub update-outcome :
      (set : Values)
      → UpdateOutcome memory_language filter set now
          (find_id db)
          (find_id (update filter set now db).1)
          (update filter set now db).0
  unfolding update memory_language
  update-outcome set = elim (Option-cases (probe db (selects filter now) db)) [
    | inl n ↦ rw (n, update) (probe-NoMatch n, λ id. refl)
    | inr (k, s) ↦
        rw (s, update)
          (k, probe-Match k s, cons-Wrote db k.id (updated set now k) (updated-id set now k))
  ]

  is_first-First :
      (sort : Doc) (k : Job)
      → probe db (is_first filter sort now db) db ≡ some k
      → First memory_language filter sort now (find_id db) k
  unfolding is_first memory_language
  is_first-First sort k e = record {
    stored = found.0;
    selected = ground (arith, found.1);
    least = λ id m s p. ground (
      arith,
      found.1,
      p,
      probe_complete db (λ x. selects filter now x && precedes sort x k) db id m m,
      s,
    );
  }
    where
      found : (find_id db k.id ≡ some k) × (is_first filter sort now db k ≡ true)
      found = probe_sound db (is_first filter sort now db) db k e

  pub find-outcome :
      (sort projection : Doc)
      → FindOutcome memory_language filter sort projection now
          (find_id db)
          (find filter sort now db)
  unfolding find memory_language
  find-outcome sort projection = elim (Option-cases (probe db (is_first filter sort now db) db)) [
    | inr (k, s) ↦ rw (s, find) (k, is_first-First sort k s, refl)
    | inl n ↦ elim (Option-cases (probe db (selects filter now) db)) [
      | inl m ↦ rw (n, find) (rw m (probe-NoMatch m))
      | inr (k, s) ↦ rw (n, find) (rw s tt)
    ]
  ]

  pub find_update-outcome :
      (sort : Doc) (set : Values) (mode : ReturnDocument)
      → FindUpdateOutcome memory_language filter sort set mode now
          (find_id db)
          (find_id (find_update filter sort set mode now db).1)
          (find_update filter sort set mode now db).0
  unfolding find_update memory_language
  find_update-outcome sort set mode = go (find filter sort now db) (find-outcome sort empty)
    where
      go :
          (r : Result DriverError Job)
          → FindOutcome memory_language filter sort empty now (find_id db) r
          → FindUpdateOutcome memory_language filter sort set mode now
              (find_id db)
              (find_id (found_update set mode now db r).1)
              (found_update set mode now db r).0
      go (ok r) (k, f, e) =
          rw e (k, f, cons-Wrote db k.id (updated set now k) (updated-id set now k), refl)
      go (err no_documents) n = (n, λ id. refl)
      go (err duplicate_key) u = absurd u
      go (err (other _)) u = inl (λ id. refl)

unfoldable pub memory : Collection memory_language
unfolding memory_language find_id insert update find find_update
memory = record {
  Db = List Job;
  content = find_id;
  insert_one = insert;
  update_one = update;
  find_one = λ filter sort projection now db. find filter sort now db;
  find_one_and_update = find_update;
  id_stored = find_id-id;
  insert_one_outcome = insert-outcome;
  update_one_outcome = λ filter set now db. update-outcome filter now db set;
  find_one_outcome = λ filter sort projection now db. find-outcome filter now db sort projection;
  find_one_and_update_outcome =
      λ filter sort set mode now db. find_update-outcome filter now db sort set mode;
}
