-- ===== src/RingBuffer/Threads/Writing.antt =====
-- The producer's accesses keep the invariant.
use mathlib.Core.Path.{subst}
use mathlib.Core.List.{append_assoc}
use ak.Base.{
  ℕ, ◌+◌, ◌-◌, ◌%◌, ◌^◌, ◌≤◌, ◌<◌, ◌≡◌, refl, ap, sym, ◌∙◌, min, List, [], ◌∷◌, ◌++◌, arith, length,
  length-take,
}
use ak.Base.Int.{ℤ}
use ak.RingBuffer.{RingBuffer, add_64, sub_64, slot, store, load_all, available}
use ak.RingBuffer.Slots.{load_all-store, load_all-add, store-same}
use ak.RingBuffer.Queue.{IsValid, contents}
use ak.RingBuffer.Threads.{Producer, writing, storing, System, call_write, write_step}
use ak.RingBuffer.Threads.Invariant.{
  Inv, Holds, loaded, length-snoc, load_all-snoc, slot-next, write_pos_eq,
}

pub call_write-Holds :
    (xs : List ℤ) (p : Producer) (s : System) → s.producer ≡ p → Holds s → Holds (call_write xs p s)
unfolding call_write load_all
call_write-Holds xs Producer.idle s e g =
    let h : Inv s.ring Producer.idle s.consumer s.sent s.got =
      subst (λ q. Inv s.ring q s.consumer s.sent s.got) e g in
    record {
      valid = h.valid;
      history = h.history;
      writes_at = refl;
      reads_at = h.reads_at;
      room = h.room;
      stored_at = refl;
      enough = h.enough;
      loaded_at = h.loaded_at;
    }
call_write-Holds xs (writing w ys) s e g = g
call_write-Holds xs (storing w done rest) s e g = g

module _ (ring : RingBuffer) (v : IsValid ring) where
  space_eq : sub_64 ring.capacity (available ring) ≡ ring.capacity - available ring
  space_eq = omega (arith, v.fill, v.small)

  -- The store of a sample behind the others.
  abbrev with_sample : ℕ → ℤ → RingBuffer
  with_sample w x = record ring { buffer = store (slot ring.capacity w) x ring.buffer }

  load-with_sample :
      (w p d n : ℕ) (x : ℤ)
      → slot ring.capacity w ≡ slot ring.capacity (p + d)
      → n ≤ d
      → d < ring.capacity
      → load_all ring.capacity p n (with_sample w x).buffer ≡ load_all ring.capacity p n ring.buffer
  load-with_sample w p d n x e h k =
      ap (λ i. load_all ring.capacity p n (store i x ring.buffer)) e
      ∙ load_all-store ring.capacity v.divides p d n x ring.buffer h k

same_positions : {r : RingBuffer} {b : ℕ → ℤ} → IsValid r → IsValid (record r { buffer = b })
unfolding available
same_positions v = record {
  divides = v.divides;
  small = v.small;
  some_room = v.some_room;
  read_in_range = v.read_in_range;
  write_in_range = v.write_in_range;
  fill = v.fill;
}

-- Load of `m_readPos`.
start_storing-Holds :
    (w : ℕ) (xs : List ℤ) (s : System)
    → Inv s.ring (writing w xs) s.consumer s.sent s.got
    → Holds (write_step (writing w xs) s)
unfolding write_step load_all available
start_storing-Holds w xs s h =
    let n = min (length xs) (sub_64 s.ring.capacity (sub_64 w s.ring.read_pos)) in
    let free : sub_64 s.ring.capacity (sub_64 w s.ring.read_pos)
        ≡ s.ring.capacity - available s.ring =
      ap (λ t. sub_64 s.ring.capacity (sub_64 t s.ring.read_pos)) h.writes_at
      ∙ space_eq s.ring h.valid in
    record {
      valid = h.valid;
      history = h.history;
      writes_at = h.writes_at;
      reads_at = h.reads_at;
      room = omega (arith, free, h.valid.fill, length-take n xs);
      stored_at = refl;
      enough = h.enough;
      loaded_at = h.loaded_at;
    }

store_sample-Holds :
    (w : ℕ) (done rest : List ℤ) (x : ℤ) (s : System)
    → Inv s.ring (storing w done (x ∷ rest)) s.consumer s.sent s.got
    → Holds (write_step (storing w done (x ∷ rest)) s)
unfolding write_step contents available
store_sample-Holds w done rest x s h =
    let c = s.ring.capacity in
    let p = s.ring.read_pos in
    let a = available s.ring in
    let j = length done in
    let at : slot c (w + j) ≡ slot c (p + (a + j)) =
      slot-next c w p a j (ap (λ t. t % 2 ^ 64) h.writes_at ∙ write_pos_eq s.ring h.valid) in
    record {
      valid = same_positions h.valid;
      history =
          h.history
          ∙ ap (λ t. s.got ++ t)
              (sym (
                load-with_sample s.ring h.valid (w + j) p (a + j) a x at (omega arith)
                  (omega (arith, h.room))));
      writes_at = h.writes_at;
      reads_at = h.reads_at;
      room = omega (arith, h.room, length-snoc done x);
      stored_at =
          load_all-snoc c h.valid.divides (p + a) j x (with_sample s.ring h.valid (w + j) x).buffer
            done refl
            (load-with_sample s.ring h.valid (w + j) (p + a) j j x (at ∙ ap (slot c) (omega arith))
                (omega arith) (omega (arith, h.room))
              ∙ h.stored_at)
            (ap (λ i. store (slot c (w + j)) x s.ring.buffer i) (ap (slot c) (omega arith) ∙ sym at)
              ∙ store-same (slot c (w + j)) x s.ring.buffer);
      enough = h.enough;
      loaded_at =
          load-with_sample s.ring h.valid (w + j) p (a + j) (length (loaded s.consumer)) x at
            (omega (arith, h.enough)) (omega (arith, h.room))
          ∙ h.loaded_at;
    }

available-publish :
    (r : RingBuffer)
    → IsValid r
    → (w n : ℕ) → w ≡ r.write_pos
    → available r + n ≤ r.capacity
    → available (record r { write_pos = add_64 w n }) ≡ available r + n
unfolding available
available-publish r v w n e h = omega (arith, v.small, v.read_in_range, v.write_in_range)

publish-Holds :
    (w : ℕ) (done : List ℤ) (s : System)
    → Inv s.ring (storing w done []) s.consumer s.sent s.got
    → Holds (write_step (storing w done []) s)
unfolding write_step contents load_all
publish-Holds w done s h =
    let r = record s.ring { write_pos = add_64 w (length done) } in
    let more : available r ≡ available s.ring + length done =
      available-publish s.ring h.valid w (length done) h.writes_at (omega (arith, h.room)) in
    record {
      valid = record {
        divides = h.valid.divides;
        small = h.valid.small;
        some_room = h.valid.some_room;
        read_in_range = h.valid.read_in_range;
        write_in_range = omega arith;
        fill = omega (arith, more, h.room);
      };
      history =
          ap (λ t. t ++ done) h.history
          ∙ append_assoc s.got (contents s.ring) done
          ∙ ap (λ t. s.got ++ t)
              (ap (λ t. contents s.ring ++ t) (sym h.stored_at)
                ∙ sym (
                    load_all-add s.ring.capacity h.valid.divides s.ring.read_pos (available s.ring)
                      (length done) s.ring.buffer)
                ∙ ap (λ n. load_all s.ring.capacity s.ring.read_pos n s.ring.buffer) (sym more));
      writes_at = tt;
      reads_at = h.reads_at;
      room = omega (arith, more, h.room);
      stored_at = refl;
      enough = omega (arith, more, h.enough);
      loaded_at = h.loaded_at;
    }

pub write_step-Holds :
    (p : Producer) (s : System) → s.producer ≡ p → Holds s → Holds (write_step p s)
unfolding write_step
write_step-Holds Producer.idle s e g = g
write_step-Holds (writing w xs) s e g =
    start_storing-Holds w xs s (subst (λ q. Inv s.ring q s.consumer s.sent s.got) e g)
write_step-Holds (storing w done (x ∷ rest)) s e g =
    store_sample-Holds w done rest x s (subst (λ q. Inv s.ring q s.consumer s.sent s.got) e g)
write_step-Holds (storing w done []) s e g =
    publish-Holds w done s (subst (λ q. Inv s.ring q s.consumer s.sent s.got) e g)
