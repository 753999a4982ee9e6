-- ===== src/RingBuffer/Threads/Progress.antt =====
-- A call of `write` or `read` returns after a bounded number of its own thread's accesses.
use ak.Base.{
  ℕ, zero, suc, ◌+◌, ◌-◌, ◌≤◌, ◌≡◌, refl, ap, Bool, true, false, List, [], ◌∷◌, arith, length,
  length-take,
}
use ak.Base.Int.{ℤ}
use ak.RingBuffer.Threads.{
  Producer, writing, storing, Consumer, reading, loading, System, Event, calls_write, calls_read,
  producer_runs, consumer_runs, call_write, call_read, write_step, read_step, step, run,
}

-- The accesses that a call has left, at most.
abbrev pub writer_left : Producer → ℕ
writer_left Producer.idle = 0
writer_left (writing w xs) = length xs + 2
writer_left (storing w done rest) = length rest + 1

abbrev pub reader_left : Consumer → ℕ
reader_left Consumer.idle = 0
reader_left (reading r n) = n + 2
reader_left (loading r out k) = k + 1

-- How often the scheduler runs a thread.
unfoldable pub writer_turns : List Event → ℕ
writer_turns [] = 0
writer_turns (producer_runs ∷ events) = suc (writer_turns events)
writer_turns (_ ∷ events) = writer_turns events

unfoldable pub reader_turns : List Event → ℕ
reader_turns [] = 0
reader_turns (consumer_runs ∷ events) = suc (reader_turns events)
reader_turns (_ ∷ events) = reader_turns events

-- Whether the thread makes no other call.
unfoldable pub no_writes : List Event → Bool
no_writes [] = true
no_writes (calls_write xs ∷ events) = false
no_writes (_ ∷ events) = no_writes events

unfoldable pub no_reads : List Event → Bool
no_reads [] = true
no_reads (calls_read n ∷ events) = false
no_reads (_ ∷ events) = no_reads events

write_step-left :
    (p : Producer) (s : System)
    → s.producer ≡ p
    → writer_left (write_step p s).producer ≤ writer_left p - 1
unfolding write_step
write_step-left Producer.idle s e = omega (arith, ap writer_left e)
write_step-left (writing w xs) s e = omega (arith, length-take _ xs)
write_step-left (storing w done (x ∷ rest)) s e = omega arith
write_step-left (storing w done []) s e = omega arith

read_step-left :
    (c : Consumer) (s : System)
    → s.consumer ≡ c
    → reader_left (read_step c s).consumer ≤ reader_left c - 1
unfolding read_step
read_step-left Consumer.idle s e = omega (arith, ap reader_left e)
read_step-left (reading r n) s e = omega arith
read_step-left (loading r out (suc k)) s e = omega arith
read_step-left (loading r out zero) s e = omega arith

-- One thread does not move the other.
call_read-producer : (n : ℕ) (c : Consumer) (s : System) → (call_read n c s).producer ≡ s.producer
unfolding call_read
call_read-producer n Consumer.idle s = refl
call_read-producer n (reading r k) s = refl
call_read-producer n (loading r out k) s = refl

read_step-producer : (c : Consumer) (s : System) → (read_step c s).producer ≡ s.producer
unfolding read_step
read_step-producer Consumer.idle s = refl
read_step-producer (reading r k) s = refl
read_step-producer (loading r out (suc k)) s = refl
read_step-producer (loading r out zero) s = refl

call_write-consumer :
    (xs : List ℤ) (p : Producer) (s : System) → (call_write xs p s).consumer ≡ s.consumer
unfolding call_write
call_write-consumer xs Producer.idle s = refl
call_write-consumer xs (writing w ys) s = refl
call_write-consumer xs (storing w done rest) s = refl

write_step-consumer : (p : Producer) (s : System) → (write_step p s).consumer ≡ s.consumer
unfolding write_step
write_step-consumer Producer.idle s = refl
write_step-consumer (writing w ys) s = refl
write_step-consumer (storing w done (x ∷ rest)) s = refl
write_step-consumer (storing w done []) s = refl

writer_left-run :
    (events : List Event) (s : System)
    → no_writes events ≡ true
    → writer_left (run events s).producer ≤ writer_left s.producer - writer_turns events
unfolding run no_writes writer_turns step
writer_left-run [] s h = omega arith
writer_left-run (calls_write xs ∷ events) s h = absurd (ground arith)
writer_left-run (calls_read n ∷ events) s h = omega (
  arith,
  writer_left-run events (call_read n s.consumer s) h,
  ap writer_left (call_read-producer n s.consumer s),
)
writer_left-run (producer_runs ∷ events) s h =
    omega
      (arith, writer_left-run events (write_step s.producer s) h, write_step-left s.producer s refl)
writer_left-run (consumer_runs ∷ events) s h = omega (
  arith,
  writer_left-run events (read_step s.consumer s) h,
  ap writer_left (read_step-producer s.consumer s),
)

reader_left-run :
    (events : List Event) (s : System)
    → no_reads events ≡ true
    → reader_left (run events s).consumer ≤ reader_left s.consumer - reader_turns events
unfolding run no_reads reader_turns step
reader_left-run [] s h = omega arith
reader_left-run (calls_write xs ∷ events) s h = omega (
  arith,
  reader_left-run events (call_write xs s.producer s) h,
  ap reader_left (call_write-consumer xs s.producer s),
)
reader_left-run (calls_read n ∷ events) s h = absurd (ground arith)
reader_left-run (producer_runs ∷ events) s h = omega (
  arith,
  reader_left-run events (write_step s.producer s) h,
  ap reader_left (write_step-consumer s.producer s),
)
reader_left-run (consumer_runs ∷ events) s h =
    omega
      (arith, reader_left-run events (read_step s.consumer s) h, read_step-left s.consumer s refl)

writer_idle : (p : Producer) → writer_left p ≤ 0 → p ≡ Producer.idle
writer_idle Producer.idle h = refl
writer_idle (writing w xs) h = absurd (omega arith)
writer_idle (storing w done rest) h = absurd (omega arith)

reader_idle : (c : Consumer) → reader_left c ≤ 0 → c ≡ Consumer.idle
reader_idle Consumer.idle h = refl
reader_idle (reading r n) h = absurd (omega arith)
reader_idle (loading r out k) h = absurd (omega arith)

-- A write waits for nobody: from any state, once the scheduler has run the producer as often as the
-- call has accesses left, at most two more than it has samples, the call has returned, whatever the
-- consumer did meanwhile, if the producer made no other call.
pub write_returns :
    (events : List Event) (s : System)
    → no_writes events ≡ true
    → writer_left s.producer ≤ writer_turns events
    → (run events s).producer ≡ Producer.idle
write_returns events s h k =
    writer_idle (run events s).producer (omega (arith, writer_left-run events s h))

-- So does a read: at most two accesses more than the samples that it asks for.
pub read_returns :
    (events : List Event) (s : System)
    → no_reads events ≡ true
    → reader_left s.consumer ≤ reader_turns events
    → (run events s).consumer ≡ Consumer.idle
read_returns events s h k =
    reader_idle (run events s).consumer (omega (arith, reader_left-run events s h))
