-- ===== src/Exercises/ProducerConsumer.antt =====
-- 1/1.go: producers and consumers on one buffered channel.
pub mod Conserved
pub mod Enabled
pub mod Ends
use major_assignments.Common.{
  ltb, ◌==◌, if◌then◌else◌, ◌>>=◌, set?, length, get_elem?, replicate, ℕ, Bool, true, false, not,
  ◌&&◌, Option, none, some, List, [], ◌∷◌, ◌++◌,
}

-- `make(chan int, 10)`
abbrev pub buffer : ℕ
buffer = 10

-- A consumer: what it has taken, the last first, and whether its loop has ended.
pub record Consumer : Type 0 where
  pub taken : List ℕ
  pub ended : Bool

-- `producers` are the numbers that each producer has still to send. A send on the closed channel
-- panics, and the whole program is then `crashed`.
pub record Program : Type 0 where
  pub producers : List (List ℕ)
  pub channel : List ℕ
  pub closed : Bool
  pub consumers : List Consumer
  pub crashed : Bool

pub data Move : Type 0 where
  produce : ℕ → Move
  consume : ℕ → Move
  close_channel : Move
  leave : ℕ → Move

abbrev pub all_sent : List (List ℕ) → Bool
all_sent [] = true
all_sent ([] ∷ ps) = all_sent ps
all_sent ((_ ∷ _) ∷ ps) = false

-- `ch <- num`
unfoldable pub step_produce : ℕ → Program → Option Program
step_produce i s = do
  items ← get_elem? s.producers i
  elim items [
    | [] ↦ none
    | num ∷ rest ↦
        if s.closed
        then some (record s { crashed = true })
        else if ltb (length s.channel) buffer
        then (do
          ps ← set? s.producers i rest
          some (record s { producers = ps; channel = s.channel ++ num ∷ [] }))
        else none
  ]

-- `num := range ch`, with a number
unfoldable pub step_consume : ℕ → Program → Option Program
step_consume i s = do
  c ← get_elem? s.consumers i
  elim s.channel [
    | [] ↦ none
    | num ∷ rest ↦ if c.ended then none else do
      cs ← set? s.consumers i (record c { taken = num ∷ c.taken })
      some (record s { channel = rest; consumers = cs })
  ]

-- `producerWG.Wait()` and `close(ch)`
unfoldable pub step_close : Program → Option Program
step_close s =
    if not s.closed && all_sent s.producers then some (record s { closed = true }) else none

-- The end of `range ch`: the channel is closed and empty.
unfoldable pub step_leave : ℕ → Program → Option Program
step_leave i s = do
  c ← get_elem? s.consumers i
  if s.closed && length s.channel == 0 && not c.ended
      then (do
        cs ← set? s.consumers i (record c { ended = true })
        some (record s { consumers = cs }))
      else none

unfoldable pub go_on : Move → Program → Option Program
go_on (produce i) s = step_produce i s
go_on (consume i) s = step_consume i s
go_on close_channel s = step_close s
go_on (leave i) s = step_leave i s

-- No goroutine goes on in a crashed program.
unfoldable pub step : Move → Program → Option Program
step m s = if s.crashed then none else go_on m s

-- `main` starts the consumers.
unfoldable pub start_program : List (List ℕ) → ℕ → Program
start_program items consumers = record {
  producers = items;
  channel = [];
  closed = false;
  consumers = replicate consumers (record { taken = []; ended = false });
  crashed = false;
}
