-- ===== src/Errors.antt =====
-- errors.go, and the errors that the methods wrap. The values that a message quotes (ids, costs)
-- are left out of it; its fixed text tells the wrapping sites apart.
use mongoqueue.Base.{String, Option, none, some, List, [], ◌∷◌}

-- What the driver, a context or a codec reports: the two cases that the code tells apart, and
-- any other.
pub data DriverError : Type 0 where
  no_documents : DriverError
  duplicate_key : DriverError
  other : String → DriverError

pub data Error : Type 0 where
  duplicate_job : Error
  missing_job_id : Error
  no_job : Error
  job_not_found : Error
  lease_lost : Error
  job_resolved : Error
  invalid_lease : Error
  invalid_weight : Error
  invalid_delay : Error
  vtime_overflow : Error
  kind_mismatch : Error
  empty_resolution : Error
  ttl_retention : Error  -- the unnamed error of EnsureTTLIndex
  driver : DriverError → Error
  wrapped : String → Error → Error  -- fmt.Errorf with %w
  joined : Error → Error → Error  -- errors.Join

-- The error that a chain of %w wraps, which `errors.Is` finds.
unfoldable pub cause : Error → Error
cause (wrapped _ e) = cause e
cause e = e

-- errors.Join: nil where there is no error.
unfoldable pub join_errors : List Error → Option Error
join_errors [] = none
join_errors (e ∷ []) = some e
join_errors (e ∷ f ∷ es) = some (fold_join e (f ∷ es))
  where
    fold_join : Error → List Error → Error
    fold_join a [] = a
    fold_join a (b ∷ bs) = fold_join (joined a b) bs
