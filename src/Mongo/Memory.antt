-- ===== src/Mongo/Memory.antt =====
-- A collection in memory that has the documented behaviour: it shows that the interface can be met,
-- and runs the examples. A new version of a job stands in front of the older ones.
pub mod Query
pub mod Store
pub mod Outcome
