-- ===== src/Queue/Options.antt =====
-- New and its options.
use mongoqueue.Base.{String, Option, none, some, List, [], ◌∷◌, ◌≡◌, refl, map}
use mongoqueue.Mongo.Language.{Language}
use mongoqueue.Mongo.Collection.{Collection}
use mongoqueue.Enqueue.{Reads, hooks_of}
use mongoqueue.Queue.{Queue, new_queue, with_node_id, apply_options, clone_primary, hooks_at}

-- The last of the texts, or the default.
abbrev pub last_or : String → List String → String
last_or d [] = d
last_or d (id ∷ ids) = last_or id ids

-- The primary of a nil collection is nil, and that of another is its clone.
abbrev pub IsClone : {Coll : Type 0} → (Coll → Coll) → Option Coll → Option Coll → Type 0
IsClone clone none primary = primary ≡ none
IsClone clone (some coll) primary = primary ≡ some (clone coll)

module _ {l : Language} (c : Collection l) {Coll : Type 0} where
  pub record IsNew (clone : Coll → Coll) (node_id : String) (coll : Option Coll) (q : Queue c Coll)
      : Type 0 where
    pub same_coll : q.coll ≡ coll
    pub named : q.node_id ≡ node_id
    pub no_timelines : q.vtimes.tenants ≡ []
    pub no_frontiers : q.vtimes.lwm ≡ []
    pub is_clone : IsClone clone coll q.primary
    pub wired : (r : Reads c) → hooks_at c q r ≡ hooks_of c r

  named_last :
      (clone : Coll → Coll) (ids : List String) (coll : Option Coll) (id : String)
      (q : Queue c Coll)
      → IsNew clone id coll q
      → IsNew clone (last_or id ids) coll (apply_options c (map (with_node_id c) ids) q)
  unfolding apply_options with_node_id
  named_last clone [] coll id q n = n
  named_last clone (i ∷ ids) coll id q n =
      named_last clone ids coll i (with_node_id c i q) (record {
        same_coll = n.same_coll;
        named = refl;
        no_timelines = n.no_timelines;
        no_frontiers = n.no_frontiers;
        is_clone = n.is_clone;
        wired = n.wired;
      })

  clone_primary-IsClone :
      (clone : Coll → Coll) (coll : Option Coll) → IsClone clone coll (clone_primary c clone coll)
  unfolding clone_primary
  clone_primary-IsClone clone none = refl
  clone_primary-IsClone clone (some coll) = refl

  -- New with any number of WithNodeID options makes a queue over the given collection whose node id
  -- is that of the last option, or the minted one if there is none; its cache has no timeline and
  -- no frontier; its primary is the clone of the collection, or nil if that is nil; and its cache's
  -- hooks are set, and answer with the seed and the frontier of the collection at their reads.
  pub new_queue-last :
      (clone : Coll → Coll) (minted : String) (coll : Option Coll) (ids : List String)
      → IsNew clone
          (last_or minted ids)
          coll
          (new_queue c clone minted coll (map (with_node_id c) ids))
  unfolding new_queue
  new_queue-last clone minted coll ids = named_last clone ids coll minted _ (record {
    same_coll = refl;
    named = refl;
    no_timelines = refl;
    no_frontiers = refl;
    is_clone = clone_primary-IsClone clone coll;
    wired = λ r. refl;
  })
