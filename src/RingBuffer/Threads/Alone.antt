-- ===== src/RingBuffer/Threads/Alone.antt =====
-- A thread that nobody interrupts: its accesses together are the operation as one step.
use mathlib.Core.List.{append_assoc, append-nil}
use ak.Base.{
  ℕ, zero, suc, ◌+◌, ◌%◌, ◌^◌, ◌≡◌, sym, ap, ap₂, ◌∙◌, min, List, [], ◌∷◌, ◌++◌, arith, length,
  take, replicate, length-append, length-take,
}
use ak.Base.Int.{ℤ}
use ak.RingBuffer.{RingBuffer, slot, store, store_all, load_all, available, space, write, read}
use ak.RingBuffer.Queue.{contents}
use ak.RingBuffer.Threads.{
  Producer, writing, storing, Consumer, reading, loading, System, calls_write, calls_read,
  producer_runs, consumer_runs, call_write, call_read, write_step, read_step, step, run, quiet,
}

-- Behind a write that stored some samples from a position on.
abbrev published : RingBuffer → Consumer → List ℤ → List ℤ → (ℕ → ℤ) → ℕ → List ℤ → System
published ring c sent got buffer position xs = record {
  ring = record ring { buffer = buffer; write_pos = position % 2 ^ 64 };
  producer = Producer.idle;
  consumer = c;
  sent = sent ++ xs;
  got = got;
}

run-storing :
    (rest done : List ℤ) (w : ℕ) (ring : RingBuffer) (c : Consumer) (sent got : List ℤ)
    → run (replicate (suc (length rest)) producer_runs) (record {
      ring = ring;
      producer = storing w done rest;
      consumer = c;
      sent = sent;
      got = got;
    })
      ≡ published ring c sent got
          (store_all ring.capacity (w + length done) rest ring.buffer)
          (w + (length done + length rest))
          (done ++ rest)
unfolding run step write_step store_all
run-storing [] done w ring c sent got =
    ap₂ (published ring c sent got ring.buffer) (omega arith) (sym (append-nil done))
run-storing (x ∷ rest) done w ring c sent got =
    let stored = store (slot ring.capacity (w + length done)) x ring.buffer in
    run-storing rest (done ++ x ∷ []) w (record ring { buffer = stored }) c sent got
    ∙ ap
        (λ q.
          published ring c sent got (store_all ring.capacity q rest stored)
            (w + (length (done ++ x ∷ []) + length rest)) ((done ++ x ∷ []) ++ rest))
        (omega (arith, length-append done (x ∷ [])))
    ∙ ap₂ (published ring c sent got (store_all ring.capacity (suc (w + length done)) rest stored))
        (omega (arith, length-append done (x ∷ []))) (append_assoc done (x ∷ []) rest)

write_alone :
    (xs : List ℤ) (r : RingBuffer)
    → run (calls_write xs ∷ replicate ((write xs r).1 + 2) producer_runs) (quiet r)
      ≡ record (quiet r) { ring = (write xs r).0; sent = contents r ++ take (write xs r).1 xs }
unfolding run step call_write write_step write space available quiet
write_alone xs r =
    let n = min (length xs) (space r) in
    let ys = take n xs in
    let same : length ys ≡ n = omega (arith, length-take n xs) in
    let rounds : n + 2 ≡ suc (suc (length ys)) = omega (arith, same) in
    ap
      (λ m. run (replicate m producer_runs) (record {
        ring = r;
        producer = writing r.write_pos xs;
        consumer = Consumer.idle;
        sent = contents r;
        got = [];
      }))
      rounds
    ∙ run-storing ys [] r.write_pos r Consumer.idle (contents r) []
    ∙ ap₂
        (λ p q. published r Consumer.idle (contents r) [] (store_all r.capacity p ys r.buffer) q ys)
        (omega arith) (omega (arith, same))

-- Behind a read that loaded some samples up to a position.
abbrev released : RingBuffer → Producer → List ℤ → List ℤ → ℕ → List ℤ → System
released ring p sent got position xs = record {
  ring = record ring { read_pos = position % 2 ^ 64 };
  producer = p;
  consumer = Consumer.idle;
  sent = sent;
  got = got ++ xs;
}

run-loading :
    (k : ℕ) (out : List ℤ) (q : ℕ) (ring : RingBuffer) (p : Producer) (sent got : List ℤ)
    → run
        (replicate (suc k) consumer_runs)
        (record { ring = ring; producer = p; consumer = loading q out k; sent = sent; got = got })
      ≡ released ring p sent got
          (q + (length out + k))
          (out ++ load_all ring.capacity (q + length out) k ring.buffer)
unfolding run step read_step load_all
run-loading zero out q ring p sent got =
    ap₂ (released ring p sent got) (omega arith) (sym (append-nil out))
run-loading (suc k) out q ring p sent got =
    let x = ring.buffer (slot ring.capacity (q + length out)) in
    let counted : length (out ++ x ∷ []) ≡ length out + 1 = length-append out (x ∷ []) in
    run-loading k (out ++ x ∷ []) q ring p sent got
    ∙ ap₂ (released ring p sent got) (omega (arith, counted)) (
        append_assoc out (x ∷ [])
          (load_all ring.capacity (q + length (out ++ x ∷ [])) k ring.buffer)
        ∙ ap (λ t. out ++ x ∷ load_all ring.capacity t k ring.buffer) (omega (arith, counted)))

read_alone :
    (count : ℕ) (r : RingBuffer)
    → run (calls_read count ∷ replicate (min count (available r) + 2) consumer_runs) (quiet r)
      ≡ record (quiet r) { ring = (read count r).0; got = (read count r).1 }
unfolding run step call_read read_step read available quiet
read_alone count r =
    let k = min count (available r) in
    let rounds : k + 2 ≡ suc (suc k) = omega arith in
    ap
      (λ m. run (replicate m consumer_runs) (record {
        ring = r;
        producer = Producer.idle;
        consumer = reading r.read_pos count;
        sent = contents r;
        got = [];
      }))
      rounds
    ∙ run-loading k [] r.read_pos r Producer.idle (contents r) []
    ∙ ap₂ (λ p q. released r Producer.idle (contents r) [] q (load_all r.capacity p k r.buffer))
        (omega arith) (omega arith)

-- A call that the other thread does not interrupt: the accesses of `write`, two more than the
-- samples it stores, do together what it does as one step, and so do the accesses of `read`.
pub uninterrupted :
    (xs : List ℤ) (count : ℕ) (r : RingBuffer)
    → (run (calls_write xs ∷ replicate ((write xs r).1 + 2) producer_runs) (quiet r)
        ≡ record (quiet r) { ring = (write xs r).0; sent = contents r ++ take (write xs r).1 xs })
      × (run (calls_read count ∷ replicate (min count (available r) + 2) consumer_runs) (quiet r)
          ≡ record (quiet r) { ring = (read count r).0; got = (read count r).1 })
uninterrupted xs count r = (write_alone xs r, read_alone count r)
