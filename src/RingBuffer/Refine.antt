-- ===== src/RingBuffer/Refine.antt =====
-- The ring of ring_buffer.cpp and a bounded queue, over sequences of operations.
use ak.Base.{ℕ, ◌-◌, ◌≡◌, refl, ap, ap₂, ◌∙◌, List, [], ◌∷◌, ◌++◌, arith, length, take, drop}
use ak.Base.Int.{ℤ}
use ak.RingBuffer.{RingBuffer, available, write, read, reset, load_all}
use ak.RingBuffer.Queue.{
  IsValid, contents, contents-write, contents-read, write-IsValid, read-IsValid,
}

pub data Op : Type 0 where
  writes : List ℤ → Op
  reads : ℕ → Op
  resets : Op

-- One operation on the ring, and what it hands to its caller.
unfoldable pub step : Op → RingBuffer → RingBuffer × List ℤ
step (writes xs) r = ((write xs r).0, [])
step (reads n) r = read n r
step resets r = (reset r, [])

-- The same on the abstract queue of a capacity.
unfoldable pub queue_step : ℕ → Op → List ℤ → List ℤ × List ℤ
queue_step capacity (writes xs) q = (q ++ take (capacity - length q) xs, [])
queue_step capacity (reads n) q = (drop n q, take n q)
queue_step capacity resets q = ([], [])

-- All that a sequence of operations hands out, and the state behind it.
unfoldable pub run : List Op → RingBuffer → RingBuffer × List ℤ
run [] r = (r, [])
run (op ∷ ops) r = let s = step op r in let t = run ops s.0 in (t.0, s.1 ++ t.1)

unfoldable pub queue_run : ℕ → List Op → List ℤ → List ℤ × List ℤ
queue_run capacity [] q = (q, [])
queue_run capacity (op ∷ ops) q =
    let s = queue_step capacity op q in let t = queue_run capacity ops s.0 in (t.0, s.1 ++ t.1)

reset-IsValid : (r : RingBuffer) → IsValid r → IsValid (reset r)
unfolding reset available
reset-IsValid r v = record {
  divides = v.divides;
  small = v.small;
  some_room = v.some_room;
  read_in_range = omega arith;
  write_in_range = omega arith;
  fill = omega (arith, v.some_room);
}

contents-reset : (r : RingBuffer) → contents (reset r) ≡ []
unfolding contents reset available load_all
contents-reset r = refl

pub step-IsValid : (op : Op) (r : RingBuffer) → IsValid r → IsValid (step op r).0
unfolding step
step-IsValid (writes xs) r v = write-IsValid r v xs
step-IsValid (reads n) r v = read-IsValid r v n
step-IsValid resets r v = reset-IsValid r v

step-capacity : (op : Op) (r : RingBuffer) → (step op r).0.capacity ≡ r.capacity
unfolding step write read reset
step-capacity (writes xs) r = refl
step-capacity (reads n) r = refl
step-capacity resets r = refl

step-queue_step :
    (op : Op) (r : RingBuffer)
    → IsValid r
    → (contents (step op r).0, (step op r).1) ≡ queue_step r.capacity op (contents r)
unfolding step queue_step
step-queue_step (writes xs) r v = ap (λ q. (q, [])) (contents-write r v xs)
step-queue_step (reads n) r v = let h = contents-read r v n in ap₂ (λ q o. (q, o)) h.1 h.0
step-queue_step resets r v = ap (λ q. (q, [])) (contents-reset r)

-- From a ring whose capacity divides 2^64 and whose positions are in range, every sequence of
-- writes, reads and resets hands out exactly the samples that a bounded queue of that capacity
-- hands out, and leaves its contents, however often the positions wrap round 2^64.
pub run-queue_run :
    (ops : List Op) (r : RingBuffer)
    → IsValid r
    → (contents (run ops r).0, (run ops r).1) ≡ queue_run r.capacity ops (contents r)
unfolding run queue_run
run-queue_run [] r v = refl
run-queue_run (op ∷ ops) r v =
    let q = (step op r).0 in
    let output = (step op r).1 in
    ap (λ t. (t.0, output ++ t.1)) (run-queue_run ops q (step-IsValid op r v))
    ∙ ap (λ c. ((queue_run c ops (contents q)).0, output ++ (queue_run c ops (contents q)).1))
        (step-capacity op r)
    ∙ ap (λ s. ((queue_run r.capacity ops s.0).0, s.1 ++ (queue_run r.capacity ops s.0).1))
        (step-queue_step op r v)
