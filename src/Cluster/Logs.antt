-- ===== src/Cluster/Logs.antt =====
-- The cluster of raft.go with the messages that its leaders have prepared for their followers. A
-- handler of `AppendEntries` is given one of these, at any time, in any order and as often as the
-- network likes.
pub mod Segment
pub mod Accept
pub mod Still
pub mod Invariant
pub mod Change
pub mod Preserve
pub mod Elect
pub mod Win
pub mod Account
pub mod Reached
pub mod Matching
pub mod Keeps
use major_assignments.Raft.Step.{stopped}
use major_assignments.Common.{ℕ, ◌<◌, ◌≡◌, some, List, [], ◌∷◌, Memᴰ}
use major_assignments.Cluster.{
  Cluster, update, Move, local, vote_asked, campaigned, counted, IsInitial,
}
use major_assignments.Labgob.{Labgob}
use major_assignments.Raft.Append.{AppendEntriesArgs}
use major_assignments.Raft.Persist.{Saved}
use major_assignments.Raft.Send.{prepare_append}
use major_assignments.Raft.Step.{
  Step, voted_reply, no_campaign, appended, prepared, replied, commanded, applied, snapshot_made,
  snapshot_installed, snapshot_received, snapshot_sent, restarted,
}
use major_assignments.Raft.Types.{Raft}

pub record LogCluster (C : Type 0) : Type 0 where
  pub cluster : Cluster C
  pub messages : List (AppendEntriesArgs C)

module _ {C : Type 0} {gob : Labgob (Saved C)} where
  -- What a step of a peer is given from outside. A message that begins right behind the
  -- follower's snapshot has the snapshot's term, which the handler does not test; snapshots of
  -- other peers are left out.
  abbrev pub IsServed : List (AppendEntriesArgs C) → {rf rf' : Raft C} → Step gob rf rf' → Type 0
  IsServed messages {rf} (appended args reply e) =
      Memᴰ args messages
      × (args.prev_log_index ≡ rf.last_snapshot_index → args.prev_log_term ≡ rf.last_snapshot_term)
  IsServed messages (snapshot_installed term index bytes flag e) = ⊥
  IsServed messages (snapshot_received args reply quiet e) = ⊥
  IsServed messages (voted_reply args reply e) = Unit {0}
  IsServed messages (no_campaign e) = Unit {0}
  IsServed messages (prepared peer_id args e) = Unit {0}
  IsServed messages (replied peer_id args reply flag e) = Unit {0}
  IsServed messages (commanded command answer e) = Unit {0}
  IsServed messages (applied msg e) = Unit {0}
  IsServed messages (snapshot_made index bytes e) = Unit {0}
  IsServed messages (snapshot_sent server args reply e) = Unit {0}
  IsServed messages (stopped e) = Unit {0}
  IsServed messages (restarted entropy e) = Unit {0}

  abbrev pub IsFaithful :
      {n : ℕ} {s s' : Cluster C} → List (AppendEntriesArgs C) → Move gob n s s' → Type 0
  IsFaithful messages (local i rf' lt st e) = IsServed messages st
  IsFaithful messages (vote_asked i args reply rf' lt st e) = Unit {0}
  IsFaithful messages (campaigned i args rf' lt st e) = Unit {0}
  IsFaithful messages (counted c v granted t' round rf' m own lt new b cand st e) = Unit {0}

module _ {C : Type 0} (gob : Labgob (Saved C)) where
  -- A move of the cluster, or a message that a leader prepares.
  pub data LogMove (n : ℕ) (s s' : LogCluster C) : Type 0 where
    moved :
        (c' : Cluster C) (mv : Move gob n s.cluster c')
        → IsFaithful s.messages mv
        → s' ≡ record s { cluster = c' }
        → LogMove n s s'
    sent :
        (i peer_id : ℕ) (args : AppendEntriesArgs C) (rf' : Raft C)
        → i < n
        → prepare_append peer_id (s.cluster.servers i) ≡ some (rf', some args)
        → s' ≡ record {
          cluster = record s.cluster { servers = update s.cluster.servers i rf' };
          messages = args ∷ s.messages;
        }
        → LogMove n s s'

  pub data LogReach (n : ℕ) (s : LogCluster C) : LogCluster C → Type 0 where
    at_start : LogReach n s s
    and_then : {t u : LogCluster C} → LogReach n s t → LogMove n t u → LogReach n s u

  pub record IsLogInitial (n : ℕ) (s : LogCluster C) : Type 0 where
    pub cluster_ok : IsInitial gob n s.cluster
    pub no_messages : s.messages ≡ []
