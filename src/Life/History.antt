-- ===== src/Life/History.antt =====
-- Runs of operations, by any clients, in any order.
use mongoqueue.Base.{String, List, [], ◌∷◌, Option}
use mongoqueue.Job.{Job}
use mongoqueue.Mongo.Language.{Language}
use mongoqueue.Mongo.Collection.{Collection}
use mongoqueue.Life.Abstract.{Cause, Moves}
use mongoqueue.Life.Acts.{Act, perform, run, AllAllowed}
use mongoqueue.Life.Simulation.{perform-AllMove}

module _ {l : Language} (c : Collection l) where
  -- What every move keeps, a run keeps, if its operations have causes that `F` allows.
  pub run_keeps :
      (F : Cause → Type 0) (P : Option Job → Type 0)
      → ((s t : Option Job) → Moves F s t → P s → P t)
      → (acts : List (Act c)) (db : c.Db) (id : String) → AllAllowed c F acts
      → P (c.content db id)
      → P (c.content (run c acts db) id)
  unfolding run
  run_keeps F P step [] db id f p = p
  run_keeps F P step (a ∷ acts) db id f p =
      run_keeps F P step acts (perform c a db) id f.1 (step _ _ (perform-AllMove F c a db f.0 id) p)

  abbrev AnyCause : Cause → Type 0
  AnyCause x = Unit
