-- ===== src/Lib.antt =====
-- Verification of the assignments in distributed computing.
--
-- The development models the Go programs of the repository: the Raft peer and its storage
-- (分布式计算（实验）/实验课期末大作业（raft）-zrc/代码/Raft2C/raft.go and persister.go, of which Raft2A and Raft2B
-- hold the same text), the key-value server and its clerk
-- (分布式计算（理论）/理论大作业-zrc/代码/Lab-3B/kvraft), the MapReduce coordinator and worker
-- (分布式计算（实验）/实验课中期作业（mapreduce）-zrc/mr), the Raft peer of the theory course with the service on
-- it (分布式计算（理论）/理论大作业-zrc/代码/Lab-3A/raft and Lab-3A/kvraft), and the channel exercises
-- (分布式计算（实验）/实验课第二次作业-zrc/代码).
--
-- A method of a struct is a function on a record of the same fields. A run-time panic, log.Fatal
-- and a call that waits for ever are `none`; the accesses to slices keep Go's bounds checks
-- (Common.Panic). The names follow the source: `request_vote` is RequestVote, `try_commit_log`
-- is tryCommitLog.
--
-- Raft: Raft.Types is the state. Each stretch of code that holds `rf.mu` is one function:
-- Raft.Role (changeRole), Raft.Persist (persist, readPersist), Raft.Vote (RequestVote),
-- Raft.Election (startElection, its reply goroutine and its counting loop), Raft.Append
-- (AppendEntries), Raft.Commit (tryCommitLog), Raft.Send (getAppendLogs,
-- sendAppendEntriesToPeer), Raft.Snapshot (Snapshot, CondInstallSnapshot, InstallSnapshot and
-- its sender), Raft.Apply (Start, startApplyLogs, Make), Raft.Rpc (the attempts of a call),
-- Raft.Ticker (the loops of ticker). Raft.Discipline and Raft.Step say what all steps of a peer
-- keep; Raft.WellFormed is the shape on which handlers do not panic, and Raft.WellFormed.Serves
-- runs them one after the other. Cluster puts peers together: any handler with any arguments,
-- crashes and restarts in any order, with the votes that were granted and the counting loops
-- that run as its own state. Cluster.Logs adds the messages that leaders have prepared; its
-- invariant is stated with a chronicle, the log that the leader of each term has had.
--
-- Service: Kv.Server takes the Raft module under it, and the encoder, as parameters, since
-- 6.824/raft-ok is not in the repository. A call of Get or PutAppend is `submit` (GetState and
-- Start), `register_call` (its channel), rounds of `apply_msg`, and the end of the wait.
-- Kv.Replicas has several servers, each of which applies one committed log from where it stands;
-- a restart goes on from the snapshot, and a server may take over the snapshot of another.
-- Kv.Clerk runs the client's loops on the list of results of its calls.
--
-- MapReduce: Coordinator has the task table, the queue and the handlers; the mutex is a flag
-- between two calls, and time is a number. Worker has map and reduce tasks with the outcomes of
-- the file system, the hash and the order of a map's keys as parameters. The two meet in the
-- tasks and reports only: in Worker.System a worker calls with a task that it has received,
-- whatever else has happened since. Coordinator.Timely restricts the reports to those that come
-- before a scan has given their task up. Worker.WholeJob is a job: map tasks in any order, also
-- done again, and a reduce task after them.
--
-- Lab-3A: Lab3a has the older peer, with another layout of its data, in files named like those
-- of Raft: Lab3a.Vote, Election, Append, Commit (updateCommitIndex), Send (checkReply,
-- appendEntriesToPeer), Apply (Start, startApplyLogs, Make), Ticker (the loops of the
-- goroutines), Persist and Persister. Lab3a.Service is the server on such a peer, which shares
-- its storage with it: a call is `call_start` and `open_channel`, messages by `apply_committed`,
-- and the end of the wait. Lab3a.Storage says what a step of the peer leaves in that storage;
-- the steps, crashes and restarts of server and peer are in Lab3a.Service.Restart.
--
-- Exercises: a program of goroutines is a state and the moves that one of them can make, and a
-- run (Exercises.Runs) is a list of moves in any order. ProducerConsumer is 1/1.go, Aggregate
-- 2/2.go, Counter 3/3.go, WordCount 4/4.go and Timed 5/5.go. What the random numbers are, and
-- how many goroutines there are, is arbitrary.
--
-- Loops are structural recursion on lists or on the number of rounds that the code's own bounds
-- give, so that no fuel is needed, but for the ten attempts of a call, which are the code's, and
-- for the endless loop of 2/2.go, whose fuel is a number of rounds: one more than the longest
-- source has numbers is enough. Terms and indices are numbers without an upper bound. Bytes are
-- numbers; `labgob` is a parameter with the law that decoding an encoding gives it back;
-- Labgob.Stream is the encoder value by value, from which Raft.Persist.Sequence and
-- Kv.Server.Sequence make that parameter with the calls in the order of the code. What the
-- random numbers are is a parameter.
--
-- Not modelled: real time, the network layer, the sockets and the debug output; the parts of
-- coordinator.go that use undeclared fields; a cluster of Lab-3A peers; client.go and common.go
-- of Lab-3A, whose text is that of Lab-3B; the test harnesses (config.go, test_test.go), which
-- are the course's. In Cluster an InstallSnapshot that meets a peer of its own term which is no
-- follower is left out of the steps, since there the code breaks the rule that it would be used
-- for; in Cluster.Logs the snapshots of other peers are left out altogether, and AppendEntries,
-- which does not test the term at its own snapshot, is given only messages that agree there.
-- Whole tasks of MapReduce follow each other in Worker.WholeJob; two workers that write the
-- files of one task at the same time are not modelled. notifyApplyCh has room for 100 values:
-- the loop that reads it has this bound, and the handlers, which would wait with the mutex held,
-- count without it. In 4/4.go the assignment of the receiver's result after wg.Done is left out.
pub mod Common
pub mod Labgob
pub mod Raft
pub mod Cluster
pub mod Kv
pub mod Coordinator
pub mod Worker
pub mod Lab3a
pub mod Exercises
pub mod Examples
