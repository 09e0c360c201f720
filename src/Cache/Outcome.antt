-- ===== src/Cache/Outcome.antt =====
-- The outcomes of reserve (vtimecache.go): where a timeline is placed, and what a call leaves.
use mongoqueue.Base.{
  Option, none, some, if◌then◌else◌, ◌==◌, Bool, ℕ, String, ◌≡◌, ◌≢◌, ◌⊎◌, true, false, Result, ok,
  err,
}
use mongoqueue.Base.Int.{ℤ, pos, max_ℤ}
use mongoqueue.Errors.{Error, wrapped}
use mongoqueue.VTime.{next_vstamp}
use mongoqueue.Cache.Table.{TenantVtime, size, at, Lwm, lwm_get}
use mongoqueue.Cache.{VtimeCache, Hooks, Reservation}

-- The trailing edge that the seed hook answers; 0 where there is no hook.
abbrev pub EdgeIs : Option (String → String → Result Error ℤ) → String → String → ℤ → Type 0
EdgeIs none tenant partition edge = edge ≡ pos 0
EdgeIs (some hook) tenant partition edge = hook tenant partition ≡ ok edge

-- The frontiers once an answer of the hook is stored: an answer that was found is the partition's,
-- and the others stay.
abbrev pub Stores : String → Result Error (ℤ × Bool) → Lwm → Lwm → Type 0
Stores partition (ok (v, true)) lwm lwm' =
    (q : String) → lwm_get q lwm' ≡ (if partition == q then v else lwm_get q lwm)
Stores partition (ok (v, false)) lwm lwm' = lwm' ≡ lwm
Stores partition (err e) lwm lwm' = ⊥

abbrev pub Freshened : Option (String → Result Error (ℤ × Bool)) → String → Lwm → Lwm → Type 0
Freshened none partition lwm lwm' = lwm' ≡ lwm
Freshened (some hook) partition lwm lwm' = Stores partition (hook partition) lwm lwm'

-- The frontier that a seed reads: of a cold seed a fresh one, else the stored one.
abbrev pub Refreshes : Hooks → String → TenantVtime → Lwm → Lwm → Type 0
Refreshes hooks partition t lwm lwm' =
    ((t.ever_seeded ≡ true) × (lwm' ≡ lwm))
    ⊎ ((t.ever_seeded ≡ false) × Freshened hooks.lwm_hook partition lwm lwm')

-- Where a seed puts the clock: at the later of the trailing edge and the frontier.
pub record IsPlaced (hooks : Hooks) (tenant partition : String) (t : TenantVtime) (lwm lwm' : Lwm)
    (vtime : ℤ) : Type 0 where
  pub edge : ℤ
  pub read : EdgeIs hooks.seed_hook tenant partition edge
  pub refreshed : Refreshes hooks partition t lwm lwm'
  pub clock : vtime ≡ max_ℤ edge (lwm_get partition lwm')

-- The entry's clock is in use: seeded since the last walk that marked it.
abbrev pub IsCurrent : TenantVtime → Type 0
IsCurrent t = (t.seeded ≡ true) × (t.stale ≡ false)

-- A current clock stays where it is; any other is placed by a seed.
abbrev pub Placement : Hooks → String → String → TenantVtime → Lwm → Lwm → ℤ → Type 0
Placement hooks tenant partition t lwm lwm' vtime =
    (IsCurrent t × (vtime ≡ t.vtime) × (lwm' ≡ lwm))
    ⊎ ((¬ IsCurrent t) × IsPlaced hooks tenant partition t lwm lwm' vtime)

-- A call leaves alone the map and every other entry.
pub record OnlyAt (a : ℕ) (c c' : VtimeCache) : Type 0 where
  pub tenants : c'.tenants ≡ c.tenants
  pub sizes : size c'.heap ≡ size c.heap
  pub others : (b : ℕ) → a ≢ b → at b c'.heap ≡ at b c.heap
  pub still : (at a c'.heap).evicted ≡ (at a c.heap).evicted

pub record Reserved (hooks : Hooks) (tenant partition : String) (cost weight : ℤ) (a : ℕ)
    (c c' : VtimeCache) (r : Reservation) : Type 0 where
  pub target : r.tenant ≡ a
  pub only : OnlyAt a c c'
  pub seeded : (at a c'.heap).seeded ≡ true
  pub current : (at a c'.heap).stale ≡ false
  pub held : (at a c'.heap).locked ≡ (at a c.heap).locked
  pub stamped : next_vstamp (at a c'.heap).vtime cost weight ≡ ok r.vstamp
  pub placed : Placement hooks tenant partition (at a c.heap) c.lwm c'.lwm (at a c'.heap).vtime

pub record Refused (a : ℕ) (c c' : VtimeCache) : Type 0 where
  pub only : OnlyAt a c c'
  pub free : (at a c'.heap).locked ≡ false
  pub kept : ((at a c'.heap).vtime ≡ (at a c.heap).vtime) ⊎ (¬ IsCurrent (at a c.heap))

abbrev pub FrontierFailed : Option (String → Result Error (ℤ × Bool)) → String → Error → Type 0
FrontierFailed none partition e = ⊥
FrontierFailed (some hook) partition e = hook partition ≡ err e

abbrev pub EdgeFailed : Option (String → String → Result Error ℤ) → String → String → Error → Type 0
EdgeFailed none tenant partition e = ⊥
EdgeFailed (some hook) tenant partition e = hook tenant partition ≡ err e

-- A seed reports the error of the read that failed: of the cold refresh, or of the trailing edge.
abbrev pub SeedFailed : Hooks → String → String → TenantVtime → Lwm → Lwm → Error → Type 0
SeedFailed hooks tenant partition t lwm lwm' e =
    ((t.ever_seeded ≡ false) × (lwm' ≡ lwm) × FrontierFailed hooks.lwm_hook partition e)
    ⊎ (Refreshes hooks partition t lwm lwm' × EdgeFailed hooks.seed_hook tenant partition e)

-- The clock at which the timeline is placed has no next stamp.
abbrev pub StampFailed : Hooks → String → String → ℤ → ℤ → TenantVtime → Lwm → Lwm → Error → Type 0
StampFailed hooks tenant partition cost weight t lwm lwm' e =
    (clock : ℤ) × (x : Error) × Placement hooks tenant partition t lwm lwm' clock
    × (next_vstamp clock cost weight ≡ err x)
    × (e ≡ wrapped "stamp" x)

abbrev pub ReserveFailed :
    Hooks → String → String → ℤ → ℤ → TenantVtime → Lwm → Lwm → Error → Type 0
ReserveFailed hooks tenant partition cost weight t lwm lwm' e =
    ((¬ IsCurrent t) × SeedFailed hooks tenant partition t lwm lwm' e)
    ⊎ StampFailed hooks tenant partition cost weight t lwm lwm' e

abbrev pub ReserveOutcome :
    Hooks
    → String
    → String
    → ℤ
    → ℤ
    → ℕ
    → VtimeCache
    → VtimeCache
    → Result Error Reservation
    → Type 0
ReserveOutcome hooks t p cost weight a c c' (ok r) = Reserved hooks t p cost weight a c c' r
ReserveOutcome hooks t p cost weight a c c' (err e) =
    Refused a c c' × ReserveFailed hooks t p cost weight (at a c.heap) c.lwm c'.lwm e
