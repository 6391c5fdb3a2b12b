-- ===== src/Examples/Logs.antt =====
-- A leader replicates, commits and applies its log.
use Prim.Native.Nat.{max}
use mathlib.Core.Option
use major_assignments.Common.{
  Returns, length, ℕ, ◌+◌, ◌-◌, ◌≤◌, ◌<◌, ◌≡◌, refl, true, false, none, some, List, [], ◌∷◌, ◌++◌,
  arith,
}
use major_assignments.Examples.Codec.{raft_gob, int_stream, option_stream, entries_stream}
use major_assignments.Examples.Peers.{
  left, no_entropy, marker, entry, booted, lead_peer, follow_peer,
}
use major_assignments.Raft.Append.{
  AppendEntriesArgs, AppendEntriesReply, append_after, middle_append, try_append, append_entries,
}
use major_assignments.Raft.Append.OwnTerm.{append_entries_keeps_own_term}
use major_assignments.Raft.Apply.{start, start_apply_logs, make}
use major_assignments.Raft.Apply.InOrder.{AreMessages, start_apply_logs_lem}
use major_assignments.Raft.Apply.Restart.{make-persist}
use major_assignments.Raft.Commit.{try_commit_log}
use major_assignments.Raft.Commit.FreshLeader.{fresh_leader_commits_all}
use major_assignments.Raft.Commit.Majority.{HasMajority, try_commit_log_lem}
use major_assignments.Raft.Log.{last_log_index, entry_at}
use major_assignments.Raft.Persist.{persist}
use major_assignments.Raft.Persister.{copy, read_snapshot}
use major_assignments.Raft.Role.{fill, change_role}
use major_assignments.Raft.Send.{prepare_append, ends_in_term, note_match, finish_append}
use major_assignments.Raft.Send.Replication.{replication}
use major_assignments.Raft.Snapshot.{snapshot_to}
use major_assignments.Raft.Snapshot.Trim.{snapshot_to_lem}
use major_assignments.Raft.Types.{follower, candidate, leader, ApplyMsg, Raft}
use major_assignments.Raft.WellFormed.{IsWellFormed}

abbrev sent_args : AppendEntriesArgs ℕ
sent_args = record {
  term = 2;
  leader_id = 0;
  prev_log_index = 1;
  prev_log_term = 1;
  entries = entry 2 20 ∷ entry 2 30 ∷ [];
  leader_commit = 1;
}

abbrev success_reply : AppendEntriesReply
success_reply = record { term = 1; success = true; next_log_term = 0; next_log_index = 4 }

-- The leader with one committed entry.
abbrev sender : Raft ℕ
sender = record lead_peer { commit_index = 1 }

abbrev sender_after : Raft ℕ
sender_after = (left (sender, none) (prepare_append 2 sender)).0

abbrev accepted : Raft ℕ
accepted = (left (follow_peer, success_reply) (append_entries raft_gob sent_args follow_peer)).0

replication_example :
    (last_log_index accepted ≡ last_log_index sender)
    × (success_reply.next_log_index ≡ last_log_index sender + 1)
    × ((i : ℕ) → 1 < i → entry_at i accepted ≡ entry_at i sender)
    × (sender.commit_index ≤ last_log_index sender
        → follow_peer.commit_index ≤ last_log_index sender
        → accepted.commit_index ≤ last_log_index accepted)
unfolding prepare_append append_entries try_append middle_append append_after entry_at
replication_example =
    replication raft_gob 2 sender follow_peer {lead' = sender_after} {follow' = accepted}
      {args = sent_args} {reply = success_reply} refl refl refl

-- An old message, with one entry of the same term, at a follower that has two.
abbrev late_args : AppendEntriesArgs ℕ
late_args = record sent_args { entries = entry 2 20 ∷ [] }

abbrev late_reply : AppendEntriesReply
late_reply = record { term = 2; success = false; next_log_term = 0; next_log_index = 0 }

abbrev ahead : Raft ℕ
ahead = record lead_peer { role = follower; me = 1 }

abbrev ahead_after : Raft ℕ
ahead_after = (left (ahead, late_reply) (append_entries raft_gob late_args ahead)).0

append_entries_keeps_own_term_example :
    (last_log_index ahead ≤ last_log_index ahead_after)
    × (late_reply.success ≡ false
        → (ahead_after.logs ≡ ahead.logs) × (ahead_after.commit_index ≡ ahead.commit_index))
unfolding append_entries try_append middle_append append_after entry_at
append_entries_keeps_own_term_example =
    append_entries_keeps_own_term raft_gob late_args ahead {rf' = ahead_after} {reply = late_reply}
      (entry 2 30) refl refl refl

abbrev committed : Raft ℕ
committed = record lead_peer { commit_index = 2; notify_apply_ch = 1 }

try_commit_log_lem_example :
    (0 ≤ committed.commit_index)
    × (committed.commit_index ≤ 3)
    × ((j : ℕ) → 0 < j → j ≤ committed.commit_index → HasMajority 1 lead_peer.match_index j)
    × ((j : ℕ) → j ≤ 3 → HasMajority 1 lead_peer.match_index j → j ≤ committed.commit_index)
unfolding try_commit_log
try_commit_log_lem_example = try_commit_log_lem lead_peer {rf' = committed} (omega arith) refl

-- A candidate with one entry that no other peer has.
abbrev fresh : Raft ℕ
fresh = record (booted 0) { role = candidate; current_term = 1; logs = marker ∷ entry 1 10 ∷ [] }

abbrev fresh_leader : Raft ℕ
fresh_leader = left fresh (change_role leader fresh)

abbrev fresh_started : Raft ℕ
fresh_started = (left (fresh, none) (start 20 fresh_leader)).0

abbrev one_success : AppendEntriesReply
one_success = record { term = 1; success = true; next_log_term = 0; next_log_index = 3 }

abbrev one_args : AppendEntriesArgs ℕ
one_args = record {
  term = 1;
  leader_id = 0;
  prev_log_index = 1;
  prev_log_term = 1;
  entries = entry 1 20 ∷ [];
  leader_commit = 0;
}

abbrev fresh_committed : Raft ℕ
fresh_committed =
    (left (fresh, false) (finish_append raft_gob 1 one_args one_success fresh_started)).0

fresh_leader_commits_all_example : last_log_index fresh ≤ fresh_committed.commit_index
unfolding change_role start finish_append note_match ends_in_term try_commit_log fill
fresh_leader_commits_all_example =
    fresh_leader_commits_all raft_gob fresh 20 1 one_args one_success {rf1 = fresh_leader}
      {rf2 = fresh_started} {rf3 = fresh_committed} {answer = some (2, 1)} {flag = false} refl refl
      (omega arith) (omega arith) refl refl refl refl (omega arith) refl refl

snapshot_to_lem_example : Returns (snapshot_to raft_gob 2 (7 ∷ []) lead_peer) (λ rf'.
    (rf'.last_snapshot_index ≡ 2)
    × (last_log_index rf' ≡ last_log_index lead_peer)
    × ((i : ℕ) → 2 < i → entry_at i rf' ≡ entry_at i lead_peer)
    × (Option.map (λ e. e.term) (entry_at 2 lead_peer) ≡ some rf'.last_snapshot_term)
    × (entry_at 2 rf' ≡ some (record { term = rf'.last_snapshot_term; command = none }))
    × (read_snapshot rf'.persister ≡ 7 ∷ []))
snapshot_to_lem_example = snapshot_to_lem raft_gob 2 (7 ∷ []) lead_peer (omega arith) (omega arith)

start_apply_logs_lem_example :
    (rf' : Raft ℕ) × (ms : List (ApplyMsg ℕ)) × (start_apply_logs raft_gob committed ≡ some rf')
    × (rf'.apply_ch ≡ committed.apply_ch ++ ms)
    × (length ms ≡ 2 - 0)
    × AreMessages committed 1 ms
    × (rf'.last_applied ≡ max 0 2)
    × (rf'.logs ≡ committed.logs)
start_apply_logs_lem_example =
    start_apply_logs_lem raft_gob committed (omega arith) (omega arith) (omega arith)

lead_peer-IsWellFormed : IsWellFormed lead_peer
lead_peer-IsWellFormed = record {
  has_marker = omega arith;
  nexts = refl;
  matches = refl;
  timers = refl;
  me_in_range = omega arith;
  timeout_low = omega arith;
  timeout_high = omega arith;
}

make-persist_example :
    Returns (make raft_gob 3 0 (copy (persist raft_gob lead_peer).persister) no_entropy) (λ rf'.
      (rf'.current_term ≡ 2)
      × (rf'.voted_for ≡ some 0)
      × (rf'.commit_index ≡ 0)
      × (rf'.logs ≡ lead_peer.logs)
      × (rf'.last_snapshot_index ≡ 0)
      × (rf'.last_snapshot_term ≡ 0)
      × (rf'.persister.snapshot ≡ lead_peer.persister.snapshot)
      × (rf'.role ≡ follower)
      × (rf'.last_applied ≡ 0)
      × IsWellFormed rf')
make-persist_example =
    make-persist int_stream option_stream entries_stream lead_peer no_entropy lead_peer-IsWellFormed

-- A follower whose stable storage holds its term and its vote takes the leader's entries.
abbrev stored_peer : Raft ℕ
stored_peer = record follow_peer { persister = (persist raft_gob follow_peer).persister }

abbrev stored_after : Raft ℕ
stored_after = (left (stored_peer, success_reply) (append_entries raft_gob sent_args stored_peer)).0
