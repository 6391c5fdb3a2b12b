-- ===== src/Raft.antt =====
-- The Raft peer of the laboratory course, `raft.go` and `persister.go` of Raft2A, Raft2B and Raft2C
-- (the three folders hold the same files). A method of `*Raft` is a function on the record `Raft`;
-- the stretch of a method that holds `rf.mu` is one function, since no other goroutine sees what is
-- in between. `none` is a panic.
pub mod Types
pub mod Persister
pub mod Timers
pub mod Log
pub mod Role
pub mod Persist
pub mod Vote
pub mod Election
pub mod Append
pub mod Commit
pub mod Send
pub mod Snapshot
pub mod Apply
pub mod Rpc
pub mod Ticker
pub mod Discipline
pub mod WellFormed
pub mod Step
