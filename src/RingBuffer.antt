-- ===== src/RingBuffer.antt =====
-- core/src/audio/ring_buffer.{h,cpp}: the ring of audio samples between the decoder and the audio
-- output. A `size_t` has 64 bits. The vector is a function of the index: `& m_mask`, which for a
-- capacity that is a power of two is the remainder by it, keeps every index below the vector's size.
-- Here each operation is one step; Threads takes them apart.
pub mod Slots
pub mod Queue
pub mod Refine
pub mod Threads
pub mod Capacity
mod Tests
use ak.Base.{
  ℕ, zero, suc, ◌+◌, ◌-◌, ◌%◌, ◌^◌, ◌<◌, min, List, [], ◌∷◌, length, take, ◌==◌, if◌then◌else◌,
}
use ak.Base.Int.{ℤ, pos}

pub record RingBuffer : Type 0 where
  pub buffer : ℕ → ℤ
  pub capacity : ℕ
  pub write_pos : ℕ
  pub read_pos : ℕ

-- Sums and differences of two `size_t`.
abbrev pub add_64 : ℕ → ℕ → ℕ
add_64 a b = (a + b) % 2 ^ 64

abbrev pub sub_64 : ℕ → ℕ → ℕ
sub_64 a b = (a + (2 ^ 64 - b)) % 2 ^ 64

-- `position & m_mask`
unfoldable pub slot : ℕ → ℕ → ℕ
slot capacity position = position % 2 ^ 64 % capacity

unfoldable pub store : ℕ → ℤ → (ℕ → ℤ) → ℕ → ℤ
store i x b j = if j == i then x else b j

-- The two copying loops.
unfoldable pub store_all : ℕ → ℕ → List ℤ → (ℕ → ℤ) → ℕ → ℤ
store_all capacity position [] b = b
store_all capacity position (x ∷ xs) b =
    store_all capacity (suc position) xs (store (slot capacity position) x b)

unfoldable pub load_all : ℕ → ℕ → ℕ → (ℕ → ℤ) → List ℤ
load_all capacity position zero b = []
load_all capacity position (suc n) b =
    b (slot capacity position) ∷ load_all capacity (suc position) n b

unfoldable pub available : RingBuffer → ℕ
available r = sub_64 r.write_pos r.read_pos

unfoldable pub space : RingBuffer → ℕ
unfolding available
space r = sub_64 r.capacity (available r)

-- The new buffer and the number of samples written.
unfoldable pub write : List ℤ → RingBuffer → RingBuffer × ℕ
unfolding space store_all
write samples r =
    let n = min (length samples) (space r) in
    (
      record r {
        buffer = store_all r.capacity r.write_pos (take n samples) r.buffer;
        write_pos = add_64 r.write_pos n;
      },
      n,
    )

-- The new buffer and the samples read.
unfoldable pub read : ℕ → RingBuffer → RingBuffer × List ℤ
unfolding available load_all
read count r =
    let n = min count (available r) in
    (record r { read_pos = add_64 r.read_pos n }, load_all r.capacity r.read_pos n r.buffer)

unfoldable pub reset : RingBuffer → RingBuffer
reset r = record r { write_pos = 0; read_pos = 0 }
