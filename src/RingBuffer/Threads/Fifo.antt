-- ===== src/RingBuffer/Threads/Fifo.antt =====
-- What the two threads see of the ring, whatever the scheduler does.
use ak.Base.{◌≤◌, ◌≡◌, refl, List, [], ◌∷◌, ◌++◌, arith, length}
use ak.RingBuffer.{RingBuffer}
use ak.RingBuffer.Queue.{IsValid, contents, length-contents}
use ak.RingBuffer.Threads.{
  System, Event, calls_write, calls_read, producer_runs, consumer_runs, step, run, quiet,
}
use ak.RingBuffer.Threads.Invariant.{Holds, quiet-Holds}
use ak.RingBuffer.Threads.Writing.{call_write-Holds, write_step-Holds}
use ak.RingBuffer.Threads.Reading.{call_read-Holds, read_step-Holds}

step-Holds : (event : Event) (s : System) → Holds s → Holds (step event s)
unfolding step
step-Holds (calls_write xs) s h = call_write-Holds xs s.producer s refl h
step-Holds (calls_read n) s h = call_read-Holds n s.consumer s refl h
step-Holds producer_runs s h = write_step-Holds s.producer s refl h
step-Holds consumer_runs s h = read_step-Holds s.consumer s refl h

run-Holds : (events : List Event) (s : System) → Holds s → Holds (run events s)
unfolding run
run-Holds [] s h = h
run-Holds (event ∷ events) s h = run-Holds events (step event s) (step-Holds event s h)

-- In whatever order the accesses of a producer and a consumer interleave, from a ring with both
-- threads idle, whose capacity divides 2^64 and whose positions are in range: the samples of the
-- writes that returned, behind those that stood in the ring, are those that reads have handed out,
-- followed by those in the ring. None is lost, repeated, changed or out of order, and no more stand
-- in the ring than its capacity.
pub run-fifo :
    (events : List Event) (r : RingBuffer)
    → IsValid r
    → let s = run events (quiet r) in
      (s.sent ≡ s.got ++ contents s.ring) × (length (contents s.ring) ≤ s.ring.capacity)
run-fifo events r v =
    let h = run-Holds events (quiet r) (quiet-Holds r v) in
    (h.history, omega (arith, length-contents (run events (quiet r)).ring h.valid, h.valid.fill))
