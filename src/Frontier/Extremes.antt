-- ===== src/Frontier/Extremes.antt =====
-- The reads of queue.go against the stamps of the stored jobs.
use mongoqueue.Base.{
  String, ◌≡◌, refl, ◌∙◌, true, false, ◌↔◌, true≢false, sym, ap, inl, inr, ok, err, Result, Bool,
  ◌⊎◌, subst,
}
use mongoqueue.Base.Int.{ℤ, pos, negsuc}
use mongoqueue.Job.{Job}
use mongoqueue.Mongo.Language.{Language}
use mongoqueue.Mongo.Collection.{Content, Collection, First, FindOutcome}
use mongoqueue.Frontier.{
  vstamp_sort, seed_filter, pending_filter, clock_filter, first_vstamp, seed_tenant_vtime,
  compute_lwm, decoded, seeded_from, or_else, located, vstamp_projection,
}
use mongoqueue.Bson.{Doc}
use mongoqueue.Errors.{Error, DriverError, other, no_documents, duplicate_key}
use mongoqueue.Frontier.Filters.{
  OnTimeline, IsFenced, IsPending, NoneSuch, IsTop, IsBottom, down-le, up-le,
  seed_filter-OnTimeline, pending_filter-IsPending, clock_filter-IsFenced,
}

module _ {l : Language} (c : Collection l) where
  First-IsTop :
      {P : Job → Type 0} (filter : Doc) (now : ℤ) (db : c.Db) (j : Job)
      → ((k : Job) → (l.selects filter now k ≡ true) ↔ P k)
      → First l filter (vstamp_sort (negsuc 0)) now (c.content db) j
      → IsTop P (c.content db) j.vstamp
  First-IsTop filter now db j means f = record {
    top = j;
    stored = f.stored;
    satisfies = (means j).0 f.selected;
    stamp = refl;
    largest = λ id k e p. down-le l k j (f.least id k e ((means k).1 p));
  }

  First-IsBottom :
      {P : Job → Type 0} (filter : Doc) (now : ℤ) (db : c.Db) (j : Job)
      → ((k : Job) → (l.selects filter now k ≡ true) ↔ P k)
      → First l filter (vstamp_sort (pos 1)) now (c.content db) j
      → IsBottom P (c.content db) j.vstamp
  First-IsBottom filter now db j means f = record {
    bottom = j;
    stored = f.stored;
    satisfies = (means j).0 f.selected;
    stamp = refl;
    smallest = λ id k e p. up-le l k j (f.least id k e ((means k).1 p));
  }

  abbrev pub TopOutcome : (Job → Type 0) → Content → Result Error (ℤ × Bool) → Type 0
  TopOutcome P a (ok (v, true)) = IsTop P a v
  TopOutcome P a (ok (v, false)) = NoneSuch P a × (v ≡ pos 0)
  TopOutcome P a (err e) = Unit {0}

  abbrev BottomOutcome : (Job → Type 0) → Content → Result Error (ℤ × Bool) → Type 0
  BottomOutcome P a (ok (v, true)) = IsBottom P a v
  BottomOutcome P a (ok (v, false)) = NoneSuch P a
  BottomOutcome P a (err e) = Unit {0}

  first_vstamp-top :
      {P : Job → Type 0} (filter : Doc) (now : ℤ) (db : c.Db)
      → ((k : Job) → (l.selects filter now k ≡ true) ↔ P k)
      → TopOutcome P (c.content db) (first_vstamp c filter (vstamp_sort (negsuc 0)) now db)
  unfolding first_vstamp decoded
  first_vstamp-top {P} filter now db means =
      go _ (c.find_one_outcome filter (vstamp_sort (negsuc 0)) vstamp_projection now db)
    where
      go :
          (r : Result DriverError Job)
          → FindOutcome l filter (vstamp_sort (negsuc 0)) vstamp_projection now (c.content db) r
          → TopOutcome P (c.content db) (decoded r)
      go (ok r) (j, f, e) =
          subst (IsTop P (c.content db)) (sym (ap (λ (x : Job). x.vstamp) e ∙ l.project_vstamp _ j))
            (First-IsTop filter now db j means f)
      go (err no_documents) n = (λ id j e p. true≢false (sym ((means j).1 p) ∙ n id j e), refl)
      go (err duplicate_key) u = absurd u
      go (err (other _)) u = tt

  first_vstamp-bottom :
      {P : Job → Type 0} (filter : Doc) (now : ℤ) (db : c.Db)
      → ((k : Job) → (l.selects filter now k ≡ true) ↔ P k)
      → BottomOutcome P (c.content db) (first_vstamp c filter (vstamp_sort (pos 1)) now db)
  unfolding first_vstamp decoded
  first_vstamp-bottom {P} filter now db means =
      go _ (c.find_one_outcome filter (vstamp_sort (pos 1)) vstamp_projection now db)
    where
      go :
          (r : Result DriverError Job)
          → FindOutcome l filter (vstamp_sort (pos 1)) vstamp_projection now (c.content db) r
          → BottomOutcome P (c.content db) (decoded r)
      go (ok r) (j, f, e) =
          subst (IsBottom P (c.content db))
            (sym (ap (λ (x : Job). x.vstamp) e ∙ l.project_vstamp _ j))
            (First-IsBottom filter now db j means f)
      go (err no_documents) n = λ id j e p. true≢false (sym ((means j).1 p) ∙ n id j e)
      go (err duplicate_key) u = absurd u
      go (err (other _)) u = tt

  abbrev pub SeedOutcome : String → String → Content → Result Error ℤ → Type 0
  SeedOutcome t p a (ok v) =
      IsTop (OnTimeline t p) a v ⊎ (NoneSuch (OnTimeline t p) a × (v ≡ pos 0))
  SeedOutcome t p a (err e) = Unit {0}

  abbrev pub FrontierOutcome : String → Content → Content → Result Error (ℤ × Bool) → Type 0
  FrontierOutcome p a b (ok (v, true)) =
      IsTop (IsFenced p) a v ⊎ (NoneSuch (IsFenced p) a × IsBottom (IsPending p) b v)
  FrontierOutcome p a b (ok (v, false)) = NoneSuch (IsFenced p) a × NoneSuch (IsPending p) b
  FrontierOutcome p a b (err e) = Unit {0}

  pub seed_tenant_vtime-SeedOutcome :
      (now : ℤ) (db : c.Db) (t p : String)
      → SeedOutcome t p (c.content db) (seed_tenant_vtime c now db t p)
  unfolding seed_tenant_vtime seeded_from
  seed_tenant_vtime-SeedOutcome now db t p =
      go _ (first_vstamp-top (seed_filter t p) now db (seed_filter-OnTimeline l t p now))
    where
      go :
          (r : Result Error (ℤ × Bool))
          → TopOutcome (OnTimeline t p) (c.content db) r
          → SeedOutcome t p (c.content db) (seeded_from r)
      go (ok (v, true)) h = inl h
      go (ok (v, false)) h = inr h
      go (err e) h = tt

  pub compute_lwm-FrontierOutcome :
      (now : ℤ) (db db' : c.Db) (p : String)
      → FrontierOutcome p (c.content db) (c.content db') (compute_lwm c now db db' p)
  unfolding compute_lwm or_else located
  compute_lwm-FrontierOutcome now db db' p =
      go _ _ (first_vstamp-top (clock_filter p) now db (clock_filter-IsFenced l p now))
        (first_vstamp-bottom (pending_filter p) now db' (pending_filter-IsPending l p now))
    where
      go :
          (r s : Result Error (ℤ × Bool))
          → TopOutcome (IsFenced p) (c.content db) r
          → BottomOutcome (IsPending p) (c.content db') s
          → FrontierOutcome p (c.content db) (c.content db') (located (or_else r s))
      go (ok (v, true)) s h k = inl h
      go (ok (v, false)) (ok (w, true)) h k = inr (h.0, k)
      go (ok (v, false)) (ok (w, false)) h k = (h.0, k)
      go (ok (v, false)) (err e) h k = tt
      go (err e) s h k = tt
