-- ===== src/Examples/Dispatch.antt =====
-- Claims, the holder's operations, and the reads, on the jobs in memory.
use mongoqueue.Base.Int.{pos, ◌≤ℤ◌, ◌<ℤ◌}
use mongoqueue.Mongo.Memory.Outcome.{memory}
use mongoqueue.Lease.Holder.{heartbeat-FencedOutcome, release-FencedOutcome, extended, released}
use mongoqueue.Lease.Fence.{FencedOutcome}
use mongoqueue.Resolve.Terminal.{complete-FencedOutcome, resolved}
use mongoqueue.Examples.{sent, stored, holder}
use mongoqueue.Errors.{empty_resolution, invalid_lease, invalid_delay}
use mongoqueue.Base.{err, ◌≡◌, ◌⊎◌, ◌≢◌}
use mongoqueue.Resolve.{complete}
use mongoqueue.Lease.{heartbeat, release}

heartbeat-FencedOutcome_example :
    ((pos 5_000_000 ≤ℤ pos 0)
      × (heartbeat memory holder (pos 5_000_000) (pos 100) stored ≡ (err invalid_lease, stored)))
    ⊎ ((pos 0 <ℤ pos 5_000_000)
        × FencedOutcome holder
            (extended (pos 5_000_000) (pos 100))
            (memory.content stored)
            (memory.content (heartbeat memory holder (pos 5_000_000) (pos 100) stored).1)
            (heartbeat memory holder (pos 5_000_000) (pos 100) stored).0)
heartbeat-FencedOutcome_example =
    heartbeat-FencedOutcome memory holder (pos 5_000_000) (pos 100) stored

release-FencedOutcome_example :
    ((pos 2_000_000 <ℤ pos 0)
      × (release memory holder (pos 2_000_000) (pos 100) stored ≡ (err invalid_delay, stored)))
    ⊎ ((pos 0 ≤ℤ pos 2_000_000)
        × FencedOutcome holder
            (released (pos 2_000_000) (pos 100))
            (memory.content stored)
            (memory.content (release memory holder (pos 2_000_000) (pos 100) stored).1)
            (release memory holder (pos 2_000_000) (pos 100) stored).0)
release-FencedOutcome_example = release-FencedOutcome memory holder (pos 2_000_000) (pos 100) stored

complete-FencedOutcome_example :
    ((sent ≡ "") × (complete memory holder sent (pos 100) stored ≡ (err empty_resolution, stored)))
    ⊎ ((sent ≢ "")
        × FencedOutcome holder
            (resolved sent (pos 100))
            (memory.content stored)
            (memory.content (complete memory holder sent (pos 100) stored).1)
            (complete memory holder sent (pos 100) stored).0)
complete-FencedOutcome_example = complete-FencedOutcome memory holder sent (pos 100) stored
