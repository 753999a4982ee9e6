-- ===== src/RingBuffer/Tests.antt =====
-- A ring of four samples whose positions are about to wrap.
use ak.Base.{◌*◌, ◌/◌, ◌-◌, ◌^◌, ◌≡◌, ◌≤◌, ◌<◌, refl, List, [], ◌∷◌, ◌++◌, arith, length}
use ak.Base.Int.{pos}
use ak.RingBuffer.{RingBuffer, available, write, read, space, store_all, load_all, store, slot}
use ak.RingBuffer.Queue.{IsValid, contents}
use ak.RingBuffer.Capacity.{next_power_of_2, create}
use ak.RingBuffer.Capacity.PowerOf2.{create-IsValid}
use ak.RingBuffer.Threads
use ak.RingBuffer.Threads.{
  Producer, storing, Consumer, reading, System, Event, calls_write, calls_read, producer_runs,
  consumer_runs, quiet,
}
use ak.RingBuffer.Threads.Fifo.{run-fifo}
use ak.RingBuffer.Threads.Progress.{write_returns, no_writes, writer_turns}
use ak.RingBuffer.Refine.{Op, writes, reads, run, queue_run, step, run-queue_run}

abbrev ring : RingBuffer
ring = record { buffer = λ i. pos 0; capacity = 4; write_pos = 2 ^ 64 - 2; read_pos = 2 ^ 64 - 2 }

ring-IsValid : IsValid ring
unfolding available
ring-IsValid = record {
  divides = refl;
  small = omega arith;
  some_room = omega arith;
  read_in_range = omega arith;
  write_in_range = omega arith;
  fill = omega arith;
}

abbrev ops : List Op
ops =
    writes (pos 1 ∷ pos 2 ∷ pos 3 ∷ [])
    ∷ reads 1
    ∷ writes (pos 4 ∷ pos 5 ∷ pos 6 ∷ [])
    ∷ reads 9
    ∷ []

ops-run : (run ops ring).1 ≡ pos 1 ∷ pos 2 ∷ pos 3 ∷ pos 4 ∷ pos 5 ∷ []
unfolding run step write read available space store_all load_all store slot
ops-run = refl

run-queue_run_example :
    (contents (run ops ring).0, (run ops ring).1) ≡ queue_run 4 ops (contents ring)
run-queue_run_example = run-queue_run ops ring ring-IsValid

-- The ring of the engine holds 200 ms of stereo audio, rounded up.
engine_ring : next_power_of_2 (48000 * 2 * 200 / 1000) ≡ 32768
unfolding next_power_of_2
engine_ring = refl

-- A capacity of no samples is rounded to none.
no_capacity : next_power_of_2 0 ≡ 0
unfolding next_power_of_2
no_capacity = refl

create-IsValid_example :
    IsValid (create 19200)
    × (available (create 19200) ≡ 0)
    × (19200 ≤ (create 19200).capacity)
    × ((create 19200).capacity < 2 * 19200)
create-IsValid_example = create-IsValid 19200 (omega arith) (omega arith)

-- A read that begins while a write is under way.
abbrev events : List Event
events =
    calls_write (pos 1 ∷ pos 2 ∷ pos 3 ∷ [])
    ∷ calls_read 9
    ∷ producer_runs
    ∷ producer_runs
    ∷ consumer_runs
    ∷ producer_runs
    ∷ producer_runs
    ∷ producer_runs
    ∷ consumer_runs
    ∷ calls_read 2
    ∷ consumer_runs
    ∷ consumer_runs
    ∷ consumer_runs
    ∷ consumer_runs
    ∷ []

events-got : (Threads.run events (quiet ring)).got ≡ pos 1 ∷ pos 2 ∷ []
unfolding Threads.run quiet store slot
events-got = refl

run-fifo_example :
    let s = Threads.run events (quiet ring) in
    (s.sent ≡ s.got ++ contents s.ring) × (length (contents s.ring) ≤ s.ring.capacity)
run-fifo_example = run-fifo events ring ring-IsValid

-- The producer stands in the loop, with two samples to store.
abbrev storing_two : System
storing_two = record (quiet ring) { producer = storing (2 ^ 64 - 2) [] (pos 1 ∷ pos 2 ∷ []) }

abbrev three_turns : List Event
three_turns = producer_runs ∷ calls_read 1 ∷ producer_runs ∷ consumer_runs ∷ producer_runs ∷ []

write_returns_example : (Threads.run three_turns storing_two).producer ≡ Producer.idle
unfolding quiet no_writes writer_turns
write_returns_example = write_returns three_turns storing_two refl (omega arith)
