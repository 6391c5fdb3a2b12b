-- ===== src/Exercises.antt =====
-- The five exercises on goroutines and channels. The random numbers are an argument. A program with
-- several goroutines is a state with the moves that they can make; a move that would wait is `none`,
-- and a run is a list of moves, in the order in which they happen.
pub mod Totals
pub mod Runs
pub mod ProducerConsumer
pub mod Aggregate
pub mod WordCount
pub mod Timed
pub mod Counter
