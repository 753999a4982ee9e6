-- ===== src/RingBuffer/Threads.antt =====
-- The operations of ring_buffer.cpp as the accesses to shared memory that they make, one producer
-- thread and one consumer thread, and any interleaving of their accesses. Each access is one step
-- that both threads see at once: the release stores and acquire loads order those to the samples
-- round those to the positions. `reset` is called when both threads are idle, so it is no step here.
pub mod Invariant
pub mod Writing
pub mod Reading
pub mod Fifo
pub mod Progress
pub mod Alone
use ak.Base.{ℕ, zero, suc, ◌+◌, min, List, [], ◌∷◌, ◌++◌, length, take}
use ak.Base.Int.{ℤ}
use ak.RingBuffer.{RingBuffer, add_64, sub_64, slot, store}
use ak.RingBuffer.Queue.{contents}

-- Where the producer stands in `write`: behind its load of `m_writePos`, or in the loop with
-- `writePos`, the samples that it has stored, which `i` counts, and those left of `toWrite`.
pub data Producer : Type 0 where
  idle : Producer
  writing : ℕ → List ℤ → Producer
  storing : ℕ → List ℤ → List ℤ → Producer

-- Where the consumer stands in `read`: behind its load of `m_readPos`, or in the loop with
-- `readPos`, the samples that it has loaded, and the number left of `toRead`.
pub data Consumer : Type 0 where
  idle : Consumer
  reading : ℕ → ℕ → Consumer
  loading : ℕ → List ℤ → ℕ → Consumer

-- The ring, the threads, and what the calls that returned have put in and taken out.
pub record System : Type 0 where
  pub ring : RingBuffer
  pub producer : Producer
  pub consumer : Consumer
  pub sent : List ℤ
  pub got : List ℤ

-- A call of `write`, up to its load of `m_writePos`: a thread makes one call at a time.
unfoldable pub call_write : List ℤ → Producer → System → System
call_write xs Producer.idle s = record s { producer = writing s.ring.write_pos xs }
call_write xs _ s = s

-- The next access of the producer: the load of `m_readPos`, the store of a sample, or the store of
-- `m_writePos`, behind which `write` returns.
unfoldable pub write_step : Producer → System → System
write_step Producer.idle s = s
write_step (writing w xs) s =
    let n = min (length xs) (sub_64 s.ring.capacity (sub_64 w s.ring.read_pos)) in
    record s { producer = storing w [] (take n xs) }
write_step (storing w done (x ∷ rest)) s =
    let i = slot s.ring.capacity (w + length done) in
    record s {
      ring = record s.ring { buffer = store i x s.ring.buffer };
      producer = storing w (done ++ x ∷ []) rest;
    }
write_step (storing w done []) s = record s {
  ring = record s.ring { write_pos = add_64 w (length done) };
  producer = Producer.idle;
  sent = s.sent ++ done;
}

-- A call of `read`, up to its load of `m_readPos`.
unfoldable pub call_read : ℕ → Consumer → System → System
call_read count Consumer.idle s = record s { consumer = reading s.ring.read_pos count }
call_read count _ s = s

-- The next access of the consumer: the load of `m_writePos`, the load of a sample, or the store of
-- `m_readPos`, behind which `read` returns.
unfoldable pub read_step : Consumer → System → System
read_step Consumer.idle s = s
read_step (reading r count) s = record s {
  consumer = loading r [] (min count (sub_64 s.ring.write_pos r));
}
read_step (loading r out (suc k)) s =
    let x = s.ring.buffer (slot s.ring.capacity (r + length out)) in
    record s { consumer = loading r (out ++ x ∷ []) k }
read_step (loading r out zero) s = record s {
  ring = record s.ring { read_pos = add_64 r (length out) };
  consumer = Consumer.idle;
  got = s.got ++ out;
}

-- What happens next, in an order that the scheduler and the callers choose.
pub data Event : Type 0 where
  calls_write : List ℤ → Event
  calls_read : ℕ → Event
  producer_runs consumer_runs : Event

unfoldable pub step : Event → System → System
unfolding call_write call_read write_step read_step
step (calls_write xs) s = call_write xs s.producer s
step (calls_read count) s = call_read count s.consumer s
step producer_runs s = write_step s.producer s
step consumer_runs s = read_step s.consumer s

unfoldable pub run : List Event → System → System
unfolding step
run [] s = s
run (event ∷ events) s = run events (step event s)

-- Both threads idle, with the samples of the ring still to be taken out.
unfoldable pub quiet : RingBuffer → System
quiet r = record {
  ring = r;
  producer = Producer.idle;
  consumer = Consumer.idle;
  sent = contents r;
  got = [];
}
