-- ===== src/Examples.antt =====
-- Runs of the code on concrete data: encoders, peers, messages and stores, and the theorems at them.
mod Codec
mod TextCodec
mod Peers
mod Elections
mod Replicated
mod Replicas
mod Logs
mod Store
mod Tasks
mod Jobs
mod WholeJob
mod SavedCodec
mod OldPeer
mod Service
mod Programs
