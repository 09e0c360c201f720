-- ===== src/Examples/Setup.antt =====
-- The construction of a queue, and its indexes.
use mongoqueue.Base.{
  Bool, true, false, String, List, [], ◌∷◌, refl, some, ok, err, ◌≡◌, arith, ℕ, map, Result,
}
use mongoqueue.Base.Int.{pos, negsuc}
use mongoqueue.Errors.{DriverError, other}
use mongoqueue.Mongo.Index.{IndexModel}
use mongoqueue.Mongo.Memory.Query.{memory_language}
use mongoqueue.Claim.{claim_filter, claim_sort}
use mongoqueue.Frontier.{seed_filter, clock_filter, pending_filter, vstamp_sort}
use mongoqueue.Indexes.{ensure_indexes, indexes_created}
use mongoqueue.Indexes.Serving.{Served, ensure_indexes-Served}
use mongoqueue.Queue.{
  new_queue, with_node_id, default_node_id, host_or_unknown, random_hex, decimal, digits,
}
use mongoqueue.Mongo.Memory.Outcome.{memory}
use mongoqueue.Queue.NodeId.{default_node_id-distinct}
use mongoqueue.Queue.Options.{IsNew, new_queue-last}

-- A server that creates what it is asked for.
abbrev accepting : List IndexModel → Result DriverError (Unit {0})
accepting models = ok tt

all_created : ensure_indexes accepting ≡ ok tt
unfolding ensure_indexes indexes_created
all_created = refl

ensure_indexes-Served_example :
    (models : List IndexModel) × (accepting models ≡ ok tt)
    × Served memory_language models
        ("partition" ∷ [])
        ("visible_at" ∷ [])
        (claim_filter "default")
        claim_sort
    × Served memory_language models
        ("partition" ∷ [])
        []
        (clock_filter "default")
        (vstamp_sort (negsuc 0))
    × Served memory_language models
        ("partition" ∷ [])
        []
        (pending_filter "default")
        (vstamp_sort (pos 1))
    × Served memory_language models
        ("tenant" ∷ "partition" ∷ [])
        []
        (seed_filter "acme" "default")
        (vstamp_sort (negsuc 0))
ensure_indexes-Served_example =
    ensure_indexes-Served memory_language accepting "acme" "default" all_created

-- A process whose host has a name, and the same one after a restart that cannot tell it.
minted :
    default_node_id (ok "unknown") 42 (ok (1, 2, 171, 255))
    ≡ default_node_id (err (other "no name")) 42 (ok (1, 2, 171, 255))
unfolding default_node_id host_or_unknown
minted = refl

minted_id : default_node_id (ok "db7") 420 (ok (1, 2, 171, 255)) ≡ some "db7-420-0102abff"
unfolding default_node_id host_or_unknown random_hex decimal digits
minted_id = refl

default_node_id-distinct_example :
    ◌≡◌ {A = List ℕ} (1 ∷ 2 ∷ 171 ∷ 255 ∷ []) (1 ∷ 2 ∷ 171 ∷ 255 ∷ [])
default_node_id-distinct_example =
    default_node_id-distinct (ok "unknown") (err (other "no name")) 42 42 1 2 171 255 1 2 171 255
      (omega arith) (omega arith) minted

-- Two options: the second wins. The clone of the collection reads from another member.
new_queue-last_example :
    IsNew memory
      (λ (coll : String × Bool). (coll.0, true))
      "b"
      (some ("jobs", false))
      (new_queue memory
        (λ (coll : String × Bool). (coll.0, true))
        "host-42-0102abff"
        (some ("jobs", false))
        (map (with_node_id memory) ("a" ∷ "b" ∷ [])))
new_queue-last_example =
    new_queue-last memory (λ coll. (coll.0, true)) "host-42-0102abff" (some ("jobs", false))
      ("a" ∷ "b" ∷ [])
