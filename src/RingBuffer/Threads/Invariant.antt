-- ===== src/RingBuffer/Threads/Invariant.antt =====
-- What holds between any two accesses of the threads.
use ak.Base.{
  ℕ, ◌+◌, ◌%◌, ◌^◌, ◌≤◌, ◌≡◌, refl, ap, ap₂, ◌∙◌, List, [], ◌∷◌, ◌++◌, arith, length, length-append,
}
use ak.Base.Int.{ℤ}
use ak.RingBuffer.{RingBuffer, slot, load_all, available}
use ak.RingBuffer.Slots.{load_all-add}
use ak.RingBuffer.Queue.{IsValid, contents}
use ak.RingBuffer.Threads.{Producer, writing, storing, Consumer, reading, loading, System, quiet}

-- The samples that a write has stored and not yet published, and the number left to store.
abbrev pub stored : Producer → List ℤ
stored (storing w done rest) = done
stored _ = []

abbrev pub unstored : Producer → ℕ
unstored (storing w done rest) = length rest
unstored _ = 0

abbrev pub loaded : Consumer → List ℤ
loaded (loading r out k) = out
loaded _ = []

abbrev pub unloaded : Consumer → ℕ
unloaded (loading r out k) = k
unloaded _ = 0

-- The position that a thread has loaded is the one in memory: no other thread stores it.
abbrev pub WritesAt : Producer → ℕ → Type 0
WritesAt Producer.idle p = Unit
WritesAt (writing w xs) p = w ≡ p
WritesAt (storing w done rest) p = w ≡ p

abbrev pub ReadsAt : Consumer → ℕ → Type 0
ReadsAt Consumer.idle p = Unit
ReadsAt (reading r n) p = r ≡ p
ReadsAt (loading r out k) p = r ≡ p

pub record Inv (ring : RingBuffer) (p : Producer) (c : Consumer) (sent got : List ℤ) : Type 0 where
  pub valid : IsValid ring
  pub history : sent ≡ got ++ contents ring
  pub writes_at : WritesAt p ring.write_pos
  pub reads_at : ReadsAt c ring.read_pos
  pub room : available ring + length (stored p) + unstored p ≤ ring.capacity
  pub stored_at :
      load_all ring.capacity (ring.read_pos + available ring) (length (stored p)) ring.buffer
      ≡ stored p
  pub enough : length (loaded c) + unloaded c ≤ available ring
  pub loaded_at : load_all ring.capacity ring.read_pos (length (loaded c)) ring.buffer ≡ loaded c

abbrev pub Holds : System → Type 0
Holds s = Inv s.ring s.producer s.consumer s.sent s.got

pub quiet-Holds : (r : RingBuffer) → IsValid r → Holds (quiet r)
unfolding quiet load_all
quiet-Holds r v = record {
  valid = v;
  history = refl;
  writes_at = tt;
  reads_at = tt;
  room = omega (arith, v.fill);
  stored_at = refl;
  enough = omega arith;
  loaded_at = refl;
}

pub length-snoc : (xs : List ℤ) (x : ℤ) → length (xs ++ x ∷ []) ≡ length xs + 1
length-snoc xs x = length-append xs (x ∷ [])

pub load_all-snoc :
    (c : ℕ) (v : 2 ^ 64 % c ≡ 0) (p n : ℕ) (x : ℤ) (b : ℕ → ℤ) (ys : List ℤ)
    → length ys ≡ n
    → load_all c p n b ≡ ys
    → b (slot c (p + n)) ≡ x
    → load_all c p (length (ys ++ x ∷ [])) b ≡ ys ++ x ∷ []
unfolding load_all
load_all-snoc c v p n x b ys l h e =
    ap (λ k. load_all c p k b) (length-snoc ys x ∙ ap (λ k. k + 1) l)
    ∙ load_all-add c v p n 1 b
    ∙ ap₂ (λ s t. s ++ t ∷ []) h e

-- The slot of the next sample to store.
pub slot-next :
    (c w p n j : ℕ) → w % 2 ^ 64 ≡ (p + n) % 2 ^ 64 → slot c (w + j) ≡ slot c (p + (n + j))
unfolding slot
slot-next c w p n j h = ap (λ t. t % c) (omega (arith, h))

pub write_pos_eq :
    (r : RingBuffer) → IsValid r → r.write_pos % 2 ^ 64 ≡ (r.read_pos + available r) % 2 ^ 64
unfolding available
write_pos_eq r v = omega (arith, v.read_in_range, v.write_in_range)
