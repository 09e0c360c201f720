-- ===== src/Lib.antt =====
-- A verification library for mongoqueue, a fair multi-tenant job queue on MongoDB.
--
-- A node's Queue keeps one cache of virtual times. An enqueue (enqueue.go) locks its timeline in
-- the cache (vtimecache.go), seeds it from the database where it has to (queue.go), computes the
-- next stamp (vtime.go), inserts the job and commits the stamp. A claim (claim.go) leases the first
-- visible job; its holder extends, releases or completes it (lease.go, resolve.go) under the claim
-- id. Cancel and Get (resolve.go) go by the job id.
--
-- The files:
--   * Base: helpers; Base/Int and Base/Int64 are the integers and Go's int64 arithmetic.
--   * VTime, Duration, Errors, Job: vtime.go, duration.go, errors.go, job.go.
--   * Bson: the documents that the code builds. Mongo: the driver and the server, which are not
--     part of the repository. Mongo/Language is an interface of the query language with its laws,
--     Mongo/Collection one of the collection's operations with their outcomes; a theorem about the
--     code takes a collection as a parameter. Mongo/Memory meets both interfaces in memory.
--     A `$set` of a field of the record sets it, whatever the field; the laws leave open what one of
--     the _id, of another name or of another type does.
--   * Opts and Enqueue: enqueue.go. Claim, Lease, Resolve: claim.go, lease.go, resolve.go.
--   * Fencing: what the claim, lease and resolve operations do to a handle that lost its job.
--   * Life: the lifecycle of a job's record as a transition system (Life/Abstract), the operations
--     of all clients as values (Life/Acts), and their runs. A pass of the server's TTL monitor is
--     one of them; all that is assumed of it is that it deletes jobs of the TTL index only.
--   * Cache: vtimecache.go. An entry is an address of a heap, so that a goroutine can hold an
--     entry that the map has dropped; `locked` is the state of its mutex.
--   * Threads: any number of goroutines that enqueue, and Reconcile beside them, as a step relation
--     over one shared cache: where each one stands is a Pc, and a Stage inside reserve; the cost and
--     the weight are those of the goroutine's call. A visit of the walk is one step. Threads/Turns
--     runs one goroutine while the others rest.
--   * Frontier: the reads of queue.go that place a timeline.
--   * Queue: New, its options and the default node id (queue.go). Indexes: EnsureIndexes; an index
--     is its keys and its partial filter, read by the laws of Mongo/Language.
--   * Reconcile and Ttl: the upkeep of queue.go. Kind: kind.go, with the BSON codec of a body type
--     as a parameter.
--   * Examples: the theorems, run on concrete jobs, caches and numbers.
--
-- A function takes as arguments what the code asks the world for: the claim id, the server time,
-- the clock of the node, and, where others may act between two steps of one call, the database or
-- the change that they make. A time is in milliseconds, as stored, and a duration in nanoseconds.
-- The windows of lock_timeline are what other goroutines do in each round of lockTimeline's loop;
-- the list bounds the rounds. The decimal digits of a process id are on fuel, its successor: each
-- digit divides the number by ten, so it has fewer digits than that.
--
-- Not modelled: what the driver does with an index, contexts and deadlines but for Reconcile's
-- checks of one, a panic inside a call of the driver, the values that error messages quote, and the
-- order in which Go walks a map.
mod Base
pub mod Errors
pub mod VTime
pub mod Duration
pub mod Bson
pub mod Job
pub mod Mongo
pub mod Opts
pub mod Claim
pub mod Lease
pub mod Resolve
pub mod Cache
pub mod Threads
pub mod Enqueue
pub mod Reconcile
pub mod Kind
pub mod Fencing
pub mod Life
pub mod Ttl
pub mod Indexes
pub mod Queue
mod Examples
pub mod Frontier
