-- ===== src/Queue.antt =====
-- queue.go: the construction of a Queue, and its default node id. The host's name, the process's
-- id and the random bytes are arguments.
pub mod NodeId
pub mod Options
use Prim.Native.String.{◌++◌, char_at}
use mongoqueue.Base.{
  Bool, ℕ, zero, suc, ◌/◌, ◌%◌, String, ltb, if◌then◌else◌, Option, none, some, List, [], ◌∷◌,
  Result, ok, err,
}
use Prim.Native.Char.{Char}
use mathlib.Core.Option.{map}
use mongoqueue.Errors.{Error, DriverError}
use mongoqueue.Mongo.Language.{Language}
use mongoqueue.Mongo.Collection.{Collection}
use mongoqueue.Enqueue.{Reads}
use mongoqueue.Frontier.{seed_tenant_vtime, compute_lwm}
use mongoqueue.Base.Int.{ℤ}
use mongoqueue.Cache.{VtimeCache, Hooks, new_vtime_cache}

-- encoding/hex's table, and strconv's digits.
abbrev pub hex_digit : ℕ → Char
hex_digit n = char_at "0123456789abcdef" n

-- hex.EncodeToString
abbrev pub encode_to_string : List ℕ → String
encode_to_string [] = ""
encode_to_string (b ∷ bs) =
    String.◌∷◌ (hex_digit (b / 16)) (String.◌∷◌ (hex_digit (b % 16)) (encode_to_string bs))

-- The four bytes that crypto/rand read; `none` where randomHex panics.
unfoldable pub random_hex : Result DriverError (ℕ × ℕ × ℕ × ℕ) → Option String
random_hex (ok (b, c, d, e)) = some (encode_to_string (b ∷ c ∷ d ∷ e ∷ []))
random_hex (err _) = none

-- The decimal digits of a number before a text, on fuel.
unfoldable pub digits : ℕ → ℕ → String → String
digits zero n after = after
digits (suc fuel) n after =
    let rest = digits fuel (n / 10) (String.◌∷◌ (hex_digit (n % 10)) after) in
    if ltb n 10 then String.◌∷◌ (hex_digit n) after else rest

-- What %d prints of a number that is not negative: it has no more digits than its successor.
unfoldable pub decimal : ℕ → String
unfolding digits
decimal n = digits (suc n) n ""

unfoldable pub host_or_unknown : Result DriverError String → String
host_or_unknown (ok host) = host
host_or_unknown (err _) = "unknown"

-- `none` where randomHex panics.
unfoldable pub default_node_id :
    Result DriverError String → ℕ → Result DriverError (ℕ × ℕ × ℕ × ℕ) → Option String
unfolding host_or_unknown decimal random_hex
default_node_id hostname pid read = elim (random_hex read) [
  | none ↦ none
  | some hex ↦ some ((host_or_unknown hostname ++ ("-" ++ (decimal pid ++ "-"))) ++ hex)
]

-- A handle on a collection `c`; the driver's handles are of the type `Coll`, `none` for nil. The
-- two hooks are fields of vtimes in Go; each is a method of the queue, and answers what the
-- database holds at its reads.
pub record Queue {l : Language} (c : Collection l) (Coll : Type 0) : Type 0 where
  pub coll : Option Coll
  pub node_id : String
  pub vtimes : VtimeCache
  pub primary : Option Coll
  pub seed_hook : Option (Reads c → String → String → Result Error ℤ)
  pub lwm_hook : Option (Reads c → String → Result Error (ℤ × Bool))

abbrev pub QueueOption : {l : Language} → Collection l → Type 0 → Type 0
QueueOption c Coll = Queue c Coll → Queue c Coll

module _ {l : Language} (c : Collection l) {Coll : Type 0} where
  unfoldable pub with_node_id : String → QueueOption c Coll
  with_node_id id q = record q { node_id = id }

  -- `for _, opt := range opts { opt(q) }`
  unfoldable pub apply_options : List (QueueOption c Coll) → QueueOption c Coll
  apply_options [] q = q
  apply_options (opt ∷ opts) q = apply_options opts (opt q)

  -- `clone` is the driver's: the collection with the primary as its read preference.
  unfoldable pub clone_primary : (Coll → Coll) → Option Coll → Option Coll
  clone_primary clone none = none
  clone_primary clone (some coll) = some (clone coll)

  -- New, with the node id that defaultNodeID mints for it.
  unfoldable pub new_queue :
      (Coll → Coll) → String → Option Coll → List (QueueOption c Coll) → Queue c Coll
  unfolding apply_options clone_primary
  new_queue clone minted coll opts = apply_options opts (record {
    coll = coll;
    node_id = minted;
    vtimes = new_vtime_cache;
    primary = clone_primary clone coll;
    seed_hook = some (λ r. seed_tenant_vtime c r.now r.at_seed);
    lwm_hook = some (λ r. compute_lwm c r.now r.at_clock r.at_fallback);
  })

  -- The answers of a queue's hooks in a call with given reads.
  abbrev pub hooks_at : Queue c Coll → Reads c → Hooks
  hooks_at q r = record {
    seed_hook = map (λ h. h r) q.seed_hook;
    lwm_hook = map (λ h. h r) q.lwm_hook;
  }
