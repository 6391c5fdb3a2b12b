-- ===== src/Examples/OldPeer.antt =====
-- Peers of Lab-3A, whose commands are numbers.
use major_assignments.Common.{
  Returns, get_elem?, take, ℕ, ◌≤◌, ◌<◌, ◌≡◌, refl, ◌⊎◌, true, false, none, some, List, [], ◌∷◌,
  ◌++◌, arith,
}
use major_assignments.Examples.Peers.{left}
use major_assignments.Examples.SavedCodec.{nat_part, saved_gob}
use major_assignments.Lab3a.Append.{
  AppendEntriesReply, append_entries, HeartBeatArgs, get_append_entries_args, append_shorter,
}
use major_assignments.Lab3a.Append.Heartbeat.{heartbeat_truncates}
use major_assignments.Lab3a.Append.Matching.{append_entries_matches}
use major_assignments.Lab3a.Commit.{update_commit_index}
use major_assignments.Lab3a.Commit.OwnTerm.{HasHalf, update_commit_index_lem}
use major_assignments.Lab3a.Election.{on_vote_reply}
use major_assignments.Lab3a.Log.{IsIndexed}
use major_assignments.Lab3a.Persist.{Saved}
use major_assignments.Lab3a.Persister.{make_persister}
use major_assignments.Lab3a.Send.{step_back, check_reply}
use major_assignments.Lab3a.Send.StepBack.{IsStepBack, step_back_lem, short_conflict_panics}
use major_assignments.Lab3a.Types.{follower, leader, LogEntry, Raft}
use major_assignments.Lab3a.Vote.{RequestVoteArgs, request_vote, is_older}
use major_assignments.Lab3a.Vote.SecondVote.{late_reply_second_vote}
use major_assignments.Labgob.{Labgob}

abbrev gob : Labgob (Saved ℕ)
gob = saved_gob nat_part

abbrev entry_at_place : ℕ → ℕ → ℕ → LogEntry ℕ
entry_at_place t i c = record { term = t; idx = i; command = some c }

abbrev first_entry : LogEntry ℕ
first_entry = record { term = 0; idx = 0; command = none }

abbrev log : List (LogEntry ℕ)
log = first_entry ∷ entry_at_place 1 1 10 ∷ entry_at_place 2 2 20 ∷ []

-- A peer of three, in term 3, that voted for peer 1 in it.
abbrev peer : Raft ℕ
peer = record {
  peers = 3;
  persister = make_persister;
  me = 0;
  dead = false;
  election_timer = 300_000_000;
  append_entries_timers = 0 ∷ 0 ∷ 0 ∷ [];
  state = follower;
  term = 3;
  vote_for = some (record { term = 3; id = 1 });
  log_entries = log;
  match_index = 2 ∷ 2 ∷ 0 ∷ [];
  next_index = 3 ∷ 3 ∷ 2 ∷ [];
  apply_ch = [];
  notify_apply_ch = 0;
  commit_index = 2;
  okbutnocommit = 0;
  last_applied = 0;
  entropy = λ _. 7;
  draws = 1;
}

peer-IsIndexed : IsIndexed peer
peer-IsIndexed = record { at_place = (refl, (refl, (refl, tt))); has_marker = omega arith }

abbrev request : ℕ → ℕ → RequestVoteArgs
request t id = record { term = t; candidate_id = id; last_log_index = 5; last_log_term = 3 }

late_reply_second_vote_example :
    Returns
      (request_vote gob
        (request 3 2)
        (on_vote_reply gob (request 1 0) (record { term = 2; vote_granted = false }) peer))
      (λ r. (r.1.vote_granted ≡ true) × (r.0.vote_for ≡ some (record { term = 3; id = 2 })))
unfolding is_older
late_reply_second_vote_example =
    late_reply_second_vote gob (request 1 0) (record { term = 2; vote_granted = false })
      (request 3 2) peer 1 (entry_at_place 2 2 20) refl (omega arith) (omega arith) refl refl refl

abbrev message : List (LogEntry ℕ) → HeartBeatArgs ℕ
message entries = record {
  leader_id = 1;
  term = 3;
  prev_log_index = 1;
  perv_log_term = 1;
  entries = entries;
  leader_commit = 1;
}

-- The peer has committed index 2, and loses it.
heartbeat_truncates_example : Returns (append_entries gob (message []) peer) (λ r.
    (r.0.log_entries ≡ first_entry ∷ entry_at_place 1 1 10 ∷ [])
    × (r.0.commit_index ≡ 2)
    × (r.1.success ≡ false))
heartbeat_truncates_example =
    heartbeat_truncates gob (message []) peer peer-IsIndexed refl (omega arith) (omega arith)

abbrev result : Raft ℕ × AppendEntriesReply
result =
    left (peer, record { follower_id = 0; term = 0; success = false; next_index = 0 })
      (append_entries gob (message (entry_at_place 3 2 30 ∷ [])) peer)

append_entries_matches_example :
    ((e : LogEntry ℕ) × (get_elem? log 1 ≡ some e) × (e.term ≡ 1))
    × (result.0.log_entries ≡ take 2 log ++ entry_at_place 3 2 30 ∷ [])
    × IsIndexed result.0
unfolding append_entries append_shorter
append_entries_matches_example =
    append_entries_matches gob (message (entry_at_place 3 2 30 ∷ [])) peer {rf' = result.0}
      {reply = result.1} peer-IsIndexed (refl, tt) refl refl

-- A leader of term 2 that has committed nothing yet.
abbrev lead : Raft ℕ
lead = record peer { state = leader; term = 2; commit_index = 0 }

update_commit_index_lem_example : Returns (update_commit_index lead) (λ rf'.
    (0 ≤ rf'.commit_index)
    × ((rf'.commit_index ≡ 0)
        ⊎ (HasHalf lead rf'.commit_index
            × ((e : LogEntry ℕ) × (get_elem? log rf'.commit_index ≡ some e) × (e.term ≡ 2))))
    × ((j : ℕ) (e : LogEntry ℕ)
        → j < 3
        → HasHalf lead j
        → get_elem? log j ≡ some e
        → e.term ≡ 2
        → j ≤ rf'.commit_index))
update_commit_index_lem_example =
    update_commit_index_lem lead (omega arith, (omega arith, (omega arith, tt))) (omega arith)

step_back_lem_example : Returns (step_back log 2 2) (IsStepBack log 2 2)
step_back_lem_example =
    step_back_lem log 2 2 first_entry refl (omega arith) (omega arith) (omega arith)

abbrev conflict : HeartBeatArgs ℕ
conflict = record (message []) { term = 2 }

abbrev refusal : AppendEntriesReply
refusal = record { follower_id = 2; term = 2; success = false; next_index = 2 }

short_conflict_panics_example :
    Returns
      (check_reply gob 2 conflict refusal lead)
      (λ r. (r.1 ≡ false) × (get_append_entries_args 2 r.0 ≡ none))
short_conflict_panics_example =
    short_conflict_panics gob 2 conflict refusal lead first_entry refl refl refl (omega arith) refl
      refl refl (omega arith)
