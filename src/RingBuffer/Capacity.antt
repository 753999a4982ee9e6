-- ===== src/RingBuffer/Capacity.antt =====
-- core/src/audio/ring_buffer.cpp: `nextPowerOf2` and the constructor.
pub mod Bits
pub mod PowerOf2
use ak.Base.{ℕ, ◌+◌, ◌-◌, ◌/◌, ◌%◌, ◌^◌}
use ak.Base.Int.{pos}
use Prim.Native.Nat.{bit_or}
use ak.RingBuffer.{RingBuffer, add_64, sub_64}

-- `v |= v >> k`
abbrev pub smear_by : ℕ → ℕ → ℕ
smear_by k v = bit_or v (v / 2 ^ k)

-- On a `size_t` of 64 bits, whose last step is there.
unfoldable pub next_power_of_2 : ℕ → ℕ
next_power_of_2 v =
    add_64
      (smear_by 32 (smear_by 16 (smear_by 8 (smear_by 4 (smear_by 2 (smear_by 1 (sub_64 v 1))))))) 1

-- The constructor.
unfoldable pub create : ℕ → RingBuffer
unfolding next_power_of_2
create capacity_samples = record {
  buffer = λ i. pos 0;
  capacity = next_power_of_2 capacity_samples;
  write_pos = 0;
  read_pos = 0;
}
