-- ===== src/Examples/Replicated.antt =====
-- The elected peer 0 of three takes a command and has it appended by peer 1.
use major_assignments.Common.{ℕ, ◌≤◌, ◌≡◌, refl, true, none, some, List, [], ◌∷◌, Memᴰ, arith}
use major_assignments.Cluster.{Cluster, update, campaign_of, local, vote_asked, campaigned, counted}
use major_assignments.Cluster.Logs.{
  LogCluster, moved, sent, LogReach, at_start, and_then, IsLogInitial,
}
use major_assignments.Cluster.Logs.Matching.{log_matching, leader_has_its_term}
use major_assignments.Examples.Codec.{raft_gob}
use major_assignments.Examples.Elections.{
  asked, granted_reply, standing, voter, tally2, elected, cluster0, cluster1, cluster2, cluster3,
  cluster0-IsInitial,
}
use major_assignments.Examples.Peers.{left, entry}
use major_assignments.Raft.Append.{
  AppendEntriesArgs, AppendEntriesReply, append_after, try_append, append_entries,
}
use major_assignments.Raft.Apply.{start}
use major_assignments.Raft.Election.{start_election, again, count_vote}
use major_assignments.Raft.Log.{last_log_index, entry_at}
use major_assignments.Raft.Role.{fill}
use major_assignments.Raft.Send.{prepare_append}
use major_assignments.Raft.Step.{appended, commanded}
use major_assignments.Raft.Types.{Raft}
use major_assignments.Raft.Vote.{request_vote}

abbrev commanded_peer : Raft ℕ
commanded_peer = (left (elected, none) (start 7 elected)).0

abbrev sender : Raft ℕ
sender = (left (commanded_peer, none) (prepare_append 1 commanded_peer)).0

abbrev message : AppendEntriesArgs ℕ
message = record {
  term = 1;
  leader_id = 0;
  prev_log_index = 0;
  prev_log_term = 0;
  entries = entry 1 7 ∷ [];
  leader_commit = 0;
}

abbrev accepted : AppendEntriesReply
accepted = record { term = 1; success = true; next_log_term = 0; next_log_index = 2 }

abbrev taker : Raft ℕ
taker = (left (voter, accepted) (append_entries raft_gob message voter)).0

abbrev with_messages : Cluster ℕ → List (AppendEntriesArgs ℕ) → LogCluster ℕ
with_messages c ms = record { cluster = c; messages = ms }

abbrev cluster4 : Cluster ℕ
cluster4 = record cluster3 { servers = update cluster3.servers 0 commanded_peer }

abbrev cluster5 : Cluster ℕ
cluster5 = record cluster4 { servers = update cluster4.servers 0 sender }

abbrev cluster6 : Cluster ℕ
cluster6 = record cluster5 { servers = update cluster5.servers 1 taker }

first-IsLogInitial : IsLogInitial raft_gob 3 (with_messages cluster0 [])
first-IsLogInitial = record { cluster_ok = cluster0-IsInitial; no_messages = refl }

elected_reach : LogReach raft_gob 3 (with_messages cluster0 []) (with_messages cluster3 [])
unfolding start_election request_vote count_vote fill
elected_reach =
    and_then
      (and_then
        (and_then at_start
          (moved cluster1 (campaigned 0 asked standing (omega arith) refl refl) tt refl))
        (moved cluster2 (vote_asked 1 asked granted_reply voter (omega arith) refl refl) tt refl))
      (moved cluster3
        (counted (campaign_of 0 asked) 1 true tally2 again elected (Memᴰ.head refl) (omega arith)
          (omega arith) refl (λ _. Memᴰ.head refl) refl refl refl)
        tt refl)

taken_reach :
    LogReach raft_gob 3 (with_messages cluster0 []) (with_messages cluster6 (message ∷ []))
unfolding start_election request_vote count_vote fill start prepare_append append_entries try_append
    append_after
taken_reach =
    and_then
      (and_then
        (and_then elected_reach (
          moved cluster4
            (local 0 commanded_peer (omega arith) (commanded 7 (some (1, 1)) refl) refl) tt refl))
        (sent 0 1 message sender (omega arith) refl refl))
      (moved cluster6 (local 1 taker (omega arith) (appended message accepted refl) refl)
        (Memᴰ.head refl, λ _. refl) refl)

log_matching_example : entry_at 1 (cluster6.servers 0) ≡ entry_at 1 (cluster6.servers 1)
unfolding start_election request_vote count_vote fill start prepare_append append_entries try_append
    append_after entry_at
log_matching_example =
    log_matching raft_gob {t = with_messages cluster6 (message ∷ [])} 0 1 1 1 {e = entry 1 7}
      {f = entry 1 7} first-IsLogInitial taken_reach refl refl refl (omega arith) (omega arith)
      (omega arith)

leader_has_its_term_example :
    (entry_at 1 (cluster6.servers 0) ≡ entry_at 1 (cluster6.servers 1))
    × (1 ≤ last_log_index (cluster6.servers 0))
unfolding start_election request_vote count_vote fill start prepare_append append_entries try_append
    append_after entry_at
leader_has_its_term_example =
    leader_has_its_term raft_gob {t = with_messages cluster6 (message ∷ [])} 1 0 1 1 {e = entry 1 7}
      first-IsLogInitial taken_reach refl refl refl (omega arith) (omega arith) (omega arith)
