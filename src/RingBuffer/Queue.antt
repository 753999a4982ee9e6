-- ===== src/RingBuffer/Queue.antt =====
-- The contents of the ring of ring_buffer.cpp, and `write` and `read` on them.
use ak.Base.{
  ℕ, zero, suc, ◌+◌, ◌-◌, ◌%◌, ◌^◌, ◌≤◌, ◌<◌, ◌≡◌, refl, sym, ap, ap₂, ◌∙◌, min, List, [], ◌∷◌,
  ◌++◌, arith, length, take, drop, length-take,
}
use ak.Base.Int.{ℤ}
use ak.RingBuffer.{RingBuffer, add_64, store_all, load_all, available, space, write, read, slot}
use ak.RingBuffer.Slots.{
  load_all-store_all, load_all-add, load_all-stored, load_all-wrap, store_all-wrap,
}

-- The capacity divides 2^64, as every power of two up to it does, and no more samples stand between
-- the positions than fit.
pub record IsValid (r : RingBuffer) : Type 0 where
  pub divides : 2 ^ 64 % r.capacity ≡ 0
  pub small : r.capacity < 2 ^ 64
  pub some_room : 0 < r.capacity
  pub read_in_range : r.read_pos < 2 ^ 64
  pub write_in_range : r.write_pos < 2 ^ 64
  pub fill : available r ≤ r.capacity

-- The samples in the ring, oldest first.
unfoldable pub contents : RingBuffer → List ℤ
contents r = load_all r.capacity r.read_pos (available r) r.buffer

length-load_all : (c p n : ℕ) (b : ℕ → ℤ) → length (load_all c p n b) ≡ n
unfolding load_all
length-load_all c p zero b = refl
length-load_all c p (suc n) b = ap suc (length-load_all c (suc p) n b)

min_zero : (n : ℕ) → min n 0 ≡ 0
min_zero n = omega arith

zero_min : (n : ℕ) → min 0 (suc n) ≡ 0
zero_min n = omega arith

min-suc : (a b : ℕ) → min (suc a) (suc b) ≡ suc (min a b)
min-suc a b = omega arith

take-min : (k : ℕ) (xs : List ℤ) → take (min (length xs) k) xs ≡ take k xs
take-min zero xs = ap (λ n. take n xs) (min_zero (length xs))
take-min (suc k) [] = ap (λ n. take {A = ℤ} n []) (zero_min k)
take-min (suc k) (x ∷ xs) =
    ap (λ n. take n (x ∷ xs)) (min-suc (length xs) k) ∙ ap (λ t. x ∷ t) (take-min k xs)

load_at : (c : ℕ) (b : ℕ → ℤ) (p q m n : ℕ) → p ≡ q → m ≡ n → load_all c p m b ≡ load_all c q n b
load_at c b p q m n h k = ap₂ (λ x y. load_all c x y b) h k

take-load_all : (n c p m : ℕ) (b : ℕ → ℤ) → take n (load_all c p m b) ≡ load_all c p (min n m) b
unfolding load_all
take-load_all zero c p m b = load_at c b p p 0 (min 0 m) refl (omega arith)
take-load_all (suc n) c p zero b = load_at c b p p 0 (min (suc n) 0) refl (omega arith)
take-load_all (suc n) c p (suc m) b =
    ap (λ ys. b (slot c p) ∷ ys) (take-load_all n c (suc p) m b)
    ∙ load_at c b p p (suc (min n m)) (min (suc n) (suc m)) refl (omega arith)

drop-load_all :
    (n c p m : ℕ) (b : ℕ → ℤ) → drop n (load_all c p m b) ≡ load_all c (p + min n m) (m - min n m) b
unfolding load_all
drop-load_all zero c p m b = load_at c b p (p + min 0 m) m (m - min 0 m) (omega arith) (omega arith)
drop-load_all (suc n) c p zero b =
    load_at c b p (p + min (suc n) 0) 0 (0 - min (suc n) 0) (omega arith) (omega arith)
drop-load_all (suc n) c p (suc m) b =
    drop-load_all n c (suc p) m b
    ∙ load_at c b (suc p + min n m) (p + min (suc n) (suc m)) (m - min n m)
        (suc m - min (suc n) (suc m)) (omega arith) (omega arith)

module _ (r : RingBuffer) (v : IsValid r) where
  space_eq : space r ≡ r.capacity - available r
  unfolding space
  space_eq = omega (arith, v.fill, v.small)

  write_pos_eq : r.write_pos % 2 ^ 64 ≡ (r.read_pos + available r) % 2 ^ 64
  unfolding available
  write_pos_eq = omega (arith, v.read_in_range, v.write_in_range)

  written_le : (xs : List ℤ) → (write xs r).1 ≤ r.capacity - available r
  unfolding write
  written_le xs = omega (arith, space_eq)

  -- A write keeps the positions in range and the fill within the capacity.
  available-write : (xs : List ℤ) → available (write xs r).0 ≡ available r + (write xs r).1
  unfolding write available
  available-write xs = omega (arith, space_eq, v.fill, v.small, v.read_in_range, v.write_in_range)

  fill-write : (xs : List ℤ) → available (write xs r).0 ≤ r.capacity
  fill-write xs = omega (arith, available-write xs, written_le xs, v.fill)

  pub write-IsValid : (xs : List ℤ) → IsValid (write xs r).0
  unfolding write
  write-IsValid xs = record {
    divides = v.divides;
    small = v.small;
    some_room = v.some_room;
    read_in_range = v.read_in_range;
    write_in_range = omega arith;
    fill = fill-write xs;
  }

  append_stored :
      (ys : List ℤ)
      → available r + length ys ≤ r.capacity
      → load_all r.capacity r.read_pos
          (available r + length ys)
          (store_all r.capacity r.write_pos ys r.buffer)
        ≡ contents r ++ ys
  unfolding contents
  append_stored ys h =
      let stored = store_all r.capacity (r.read_pos + available r) ys r.buffer in
      ap (load_all r.capacity r.read_pos (available r + length ys))
        (store_all-wrap r.capacity r.write_pos (r.read_pos + available r) ys r.buffer write_pos_eq)
      ∙ load_all-add r.capacity v.divides r.read_pos (available r) (length ys) stored
      ∙ ap₂ (λ s t. s ++ t)
          (load_all-store_all r.capacity v.divides r.read_pos (available r) ys r.buffer
            (available r) (omega arith) h)
          (load_all-stored r.capacity v.divides (r.read_pos + available r) ys r.buffer
            (omega (arith, h)))

  pub length-contents : length (contents r) ≡ available r
  unfolding contents
  length-contents = length-load_all r.capacity r.read_pos (available r) r.buffer

  taken : (xs : List ℤ) → length (take (min (length xs) (space r)) xs) ≡ (write xs r).1
  unfolding write
  taken xs = omega (arith, length-take (min (length xs) (space r)) xs)

  stored-contents :
      (xs : List ℤ)
      → let ys = take (min (length xs) (space r)) xs in
        contents (write xs r).0
        ≡ load_all r.capacity r.read_pos
            (available r + length ys)
            (store_all r.capacity r.write_pos ys r.buffer)
  unfolding contents
  stored-contents xs =
      unfold write in
      load_at r.capacity _ r.read_pos r.read_pos _ _ refl
        (available-write xs ∙ ap (λ n. available r + n) (sym (taken xs)))

  -- What is written is appended, as far as there is room, and what was there stays.
  pub contents-write :
      (xs : List ℤ)
      → contents (write xs r).0 ≡ contents r ++ take (r.capacity - length (contents r)) xs
  contents-write xs =
      stored-contents xs
      ∙ append_stored (take (min (length xs) (space r)) xs)
          (omega (arith, taken xs, written_le xs, v.fill))
      ∙ ap (λ t. contents r ++ t) (take-min (space r) xs)
      ∙ ap (λ n. contents r ++ take n xs)
          (space_eq ∙ ap (λ n. r.capacity - n) (sym length-contents))

  available-read : (n : ℕ) → available (read n r).0 ≡ available r - min n (available r)
  unfolding read available
  available-read n = omega (arith, v.fill, v.small, v.read_in_range, v.write_in_range)

  -- What is read is the front, as far as there is something, and the rest stays.
  pub contents-read :
      (n : ℕ) → ((read n r).1 ≡ take n (contents r)) × (contents (read n r).0 ≡ drop n (contents r))
  unfolding contents read
  contents-read n = (
    sym (take-load_all n r.capacity r.read_pos (available r) r.buffer),
    load_all-wrap r.capacity (add_64 r.read_pos (min n (available r)))
          (r.read_pos + min n (available r)) (available (read n r).0) r.buffer (omega arith)
        ∙ load_at r.capacity r.buffer _ _ _ _ refl (available-read n)
        ∙ sym (drop-load_all n r.capacity r.read_pos (available r) r.buffer),
  )

  pub read-IsValid : (n : ℕ) → IsValid (read n r).0
  unfolding read
  read-IsValid n = record {
    divides = v.divides;
    small = v.small;
    some_room = v.some_room;
    read_in_range = omega arith;
    write_in_range = v.write_in_range;
    fill = omega (arith, available-read n, v.fill);
  }
