-- ===== src/Lab3a.antt =====
-- Lab-3A/raft: the Raft peer of the theory course, raft.go and persister.go. A method of `*Raft` is a
-- function on the record `Raft`, by the stretch that holds the lock; `none` is a panic or `log.Fatal`.
pub mod Persister
pub mod Types
pub mod Timers
pub mod Log
pub mod Persist
pub mod Vote
pub mod Election
pub mod Append
pub mod Commit
pub mod Send
pub mod Apply
pub mod Ticker
pub mod Storage
pub mod Service
