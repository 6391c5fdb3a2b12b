-- ===== src/Kv.antt =====
-- The key-value service over Raft, kvraft of Lab-3B (`common.go`, `server.go`, `client.go`; Lab-3A has
-- the same code but for the storage of the data). Client, message and request ids are numbers.
pub mod Types
pub mod Server
pub mod Clerk
pub mod Replicas
