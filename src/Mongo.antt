-- ===== src/Mongo.antt =====
-- The MongoDB server and its driver, which the queue calls: an interface of operations and of the
-- documented behaviour that the queue relies on. Every component takes it as a parameter.
pub mod Language
pub mod Collection
pub mod Steps
pub mod Index
pub mod Memory
