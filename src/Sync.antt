-- ===== src/Sync.antt =====
-- libpisync/sync.c: the generic synchronisation algorithm.
pub mod Types
pub mod Proc
pub mod Store
pub mod Record
pub mod Merge
pub mod Session
pub mod Course
pub mod Keeps
pub mod Invariant
pub mod Rounds
pub mod Loops
pub mod Sessions
pub mod Plan
pub mod Refines
pub mod Access
pub mod Total
pub mod Closing
pub mod Order
pub mod Outcome
mod Tests
