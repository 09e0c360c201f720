-- ===== src/Cache/Seed.antt =====
-- The seed of a timeline, with its reads, on every branch.
use mongoqueue.Base.{
  String, ◌≡◌, refl, inl, inr, true, false, Result, ok, err, Option, Option-cases, some, sym, Bool,
  if◌then◌else◌,
}
use mongoqueue.Base.Int.{ℤ, pos, max_ℤ}
use mongoqueue.Errors.{Error}
use mongoqueue.Cache.Table.{TenantVtime, Lwm, lwm_get, lwm_get-put}
use mongoqueue.Cache.{Hooks, refresh_lwm, edge_of, seed_edge, seed, place, store_lwm}
use mongoqueue.Cache.Outcome.{EdgeIs, Stores, Freshened, FrontierFailed, SeedFailed, Refreshes}

abbrev StoreOutcome :
    String → Result Error (ℤ × Bool) → Lwm → Result Error (Unit {0}) × Lwm → Type 0
StoreOutcome p r lwm (ok _, lwm') = Stores p r lwm lwm'
StoreOutcome p r lwm (err e, lwm') = (lwm' ≡ lwm) × (r ≡ err e)

store_lwm-StoreOutcome :
    (p : String) (r : Result Error (ℤ × Bool)) (lwm : Lwm)
    → StoreOutcome p r lwm (store_lwm p r lwm)
unfolding store_lwm
store_lwm-StoreOutcome p (ok (v, true)) lwm = λ q. lwm_get-put q p v lwm
store_lwm-StoreOutcome p (ok (v, false)) lwm = refl
store_lwm-StoreOutcome p (err e) lwm = (refl, refl)

abbrev RefreshOutcome :
    Option (String → Result Error (ℤ × Bool))
    → String
    → Lwm
    → Result Error (Unit {0}) × Lwm
    → Type 0
RefreshOutcome hook p lwm (ok _, lwm') = Freshened hook p lwm lwm'
RefreshOutcome hook p lwm (err e, lwm') = (lwm' ≡ lwm) × FrontierFailed hook p e

refresh_lwm-RefreshOutcome :
    (hooks : Hooks) (p : String) (lwm : Lwm)
    → RefreshOutcome hooks.lwm_hook p lwm (refresh_lwm hooks p lwm)
unfolding refresh_lwm
refresh_lwm-RefreshOutcome hooks p lwm = elim (Option-cases hooks.lwm_hook) [
  | inl n ↦ rw n refl
  | inr (hook, s) ↦ rw s (asked hook _ (store_lwm-StoreOutcome p (hook p) lwm))
]
  where
    asked :
        (hook : String → Result Error (ℤ × Bool)) (x : Result Error (Unit {0}) × Lwm)
        → StoreOutcome p (hook p) lwm x
        → RefreshOutcome (some hook) p lwm x
    asked hook (ok _, lwm') o = o
    asked hook (err e, lwm') o = o

-- A seed that succeeds.
pub record SeedDone (hooks : Hooks) (tn p : String) (t : TenantVtime) (lwm : Lwm) (u : TenantVtime)
    (lwm' : Lwm) : Type 0 where
  pub edge : ℤ
  pub read : EdgeIs hooks.seed_hook tn p edge
  pub refreshed : Refreshes hooks p t lwm lwm'
  pub result :
      u ≡ record t { vtime = max_ℤ edge (lwm_get p lwm'); seeded = true; ever_seeded = true }

abbrev pub SeedResult :
    Hooks → String → String → TenantVtime → Lwm → Result Error TenantVtime × Lwm → Type 0
SeedResult hooks tn p t lwm (ok u, lwm') = SeedDone hooks tn p t lwm u lwm'
SeedResult hooks tn p t lwm (err e, lwm') = SeedFailed hooks tn p t lwm lwm' e

-- What the seed has when it asks for the trailing edge.
abbrev Prepared : Hooks → String → TenantVtime → Lwm → Result Error (Unit {0}) × Lwm → Type 0
Prepared hooks p t lwm (ok _, lwm') = Refreshes hooks p t lwm lwm'
Prepared hooks p t lwm (err e, lwm') =
    (t.ever_seeded ≡ false) × (lwm' ≡ lwm) × FrontierFailed hooks.lwm_hook p e

place-SeedResult :
    (hooks : Hooks) (tn p : String) (t : TenantVtime) (lwm lwm' : Lwm) (r : Result Error ℤ)
    → Refreshes hooks p t lwm lwm'
    → edge_of hooks tn p ≡ r
    → SeedResult hooks tn p t lwm (place r p t lwm', lwm')
unfolding place edge_of
place-SeedResult hooks tn p t lwm lwm' (ok edge) f e = record {
  edge = edge;
  read = elim (Option-cases hooks.seed_hook) [
    | inl n ↦ rw n (answered (sym (rw n at e)))
    | inr (hook, s) ↦ rw s (rw s at e)
  ];
  refreshed = f;
  result = refl;
}
  where
    answered : ◌≡◌ {A = Result Error ℤ} (ok edge) (ok (pos 0)) → edge ≡ pos 0
    answered q = cc
place-SeedResult hooks tn p t lwm lwm' (err x) f e = inr (
  f,
  elim (Option-cases hooks.seed_hook) [
    | inl n ↦ absurd (unasked (rw n at e))
    | inr (hook, s) ↦ rw s (rw s at e)
  ],
)
  where
    unasked : ◌≡◌ {A = Result Error ℤ} (ok (pos 0)) (err x) → ⊥
    unasked q = cc

seed_edge-SeedResult :
    (hooks : Hooks) (tn p : String) (t : TenantVtime) (lwm : Lwm)
    (r : Result Error (Unit {0}) × Lwm)
    → Prepared hooks p t lwm r
    → SeedResult hooks tn p t lwm (seed_edge hooks tn p t r)
unfolding seed_edge
seed_edge-SeedResult hooks tn p t lwm (err e, lwm') f = inl f
seed_edge-SeedResult hooks tn p t lwm (ok _, lwm') f =
    place-SeedResult hooks tn p t lwm lwm' (edge_of hooks tn p) f refl

pub seed-SeedResult :
    (hooks : Hooks) (tn p : String) (t : TenantVtime) (lwm : Lwm)
    → SeedResult hooks tn p t lwm (seed hooks tn p t lwm)
unfolding seed
seed-SeedResult hooks tn p t lwm = go t.ever_seeded refl
  where
    cold :
        t.ever_seeded ≡ false
        → (x : Result Error (Unit {0}) × Lwm) → RefreshOutcome hooks.lwm_hook p lwm x
        → Prepared hooks p t lwm x
    cold e (ok _, lwm') o = inr (e, o)
    cold e (err x, lwm') (q, f) = (e, q, f)

    go :
        (b : Bool)
        → t.ever_seeded ≡ b
        → SeedResult hooks tn p t lwm
            (seed_edge hooks tn p t (if b then (ok tt, lwm) else refresh_lwm hooks p lwm))
    go true e = seed_edge-SeedResult hooks tn p t lwm (ok tt, lwm) (inl (e, refl))
    go false e =
        seed_edge-SeedResult hooks tn p t lwm (refresh_lwm hooks p lwm)
          (cold e _ (refresh_lwm-RefreshOutcome hooks p lwm))
