-- ===== src/RingBuffer/Threads/Reading.antt =====
-- The consumer's accesses keep the invariant.
use mathlib.Core.Path.{subst}
use mathlib.Core.List.{append_assoc}
use ak.Base.{
  ℕ, zero, suc, ◌+◌, ◌-◌, ◌%◌, ◌^◌, ◌≤◌, ◌≡◌, refl, ap, ap₂, sym, ◌∙◌, List, ◌++◌, arith, length,
}
use ak.Base.Int.{ℤ}
use ak.RingBuffer.{RingBuffer, add_64, sub_64, slot, load_all, available}
use ak.RingBuffer.Slots.{load_all-add, load_all-wrap}
use ak.RingBuffer.Queue.{IsValid, contents}
use ak.RingBuffer.Threads.{Consumer, reading, loading, System, call_read, read_step}
use ak.RingBuffer.Threads.Invariant.{Inv, Holds, stored, length-snoc, load_all-snoc}

pub call_read-Holds :
    (count : ℕ) (c : Consumer) (s : System) → s.consumer ≡ c → Holds s → Holds (call_read count c s)
unfolding call_read load_all
call_read-Holds count Consumer.idle s e g =
    let h : Inv s.ring s.producer Consumer.idle s.sent s.got =
      subst (λ q. Inv s.ring s.producer q s.sent s.got) e g in
    record {
      valid = h.valid;
      history = h.history;
      writes_at = h.writes_at;
      reads_at = refl;
      room = h.room;
      stored_at = h.stored_at;
      enough = h.enough;
      loaded_at = refl;
    }
call_read-Holds count (reading r n) s e g = g
call_read-Holds count (loading r out k) s e g = g

available-release :
    (r : RingBuffer)
    → IsValid r
    → (p n : ℕ) → p ≡ r.read_pos
    → n ≤ available r
    → available (record r { read_pos = add_64 p n }) ≡ available r - n
unfolding available
available-release r v p n e h = omega (arith, v.read_in_range, v.write_in_range)

start_loading-Holds :
    (r count : ℕ) (s : System)
    → Inv s.ring s.producer (reading r count) s.sent s.got
    → Holds (read_step (reading r count) s)
unfolding read_step load_all available
start_loading-Holds r count s h = record {
  valid = h.valid;
  history = h.history;
  writes_at = h.writes_at;
  reads_at = h.reads_at;
  room = h.room;
  stored_at = h.stored_at;
  enough = omega (arith, ap (λ t. sub_64 s.ring.write_pos t) h.reads_at);
  loaded_at = refl;
}

load_sample-Holds :
    (r k : ℕ) (out : List ℤ) (s : System)
    → Inv s.ring s.producer (loading r out (suc k)) s.sent s.got
    → Holds (read_step (loading r out (suc k)) s)
unfolding read_step
load_sample-Holds r k out s h =
    let x = s.ring.buffer (slot s.ring.capacity (r + length out)) in
    record {
      valid = h.valid;
      history = h.history;
      writes_at = h.writes_at;
      reads_at = h.reads_at;
      room = h.room;
      stored_at = h.stored_at;
      enough = omega (arith, h.enough, length-snoc out x);
      loaded_at =
          load_all-snoc s.ring.capacity h.valid.divides s.ring.read_pos (length out) x s.ring.buffer
            out refl h.loaded_at
            (ap (λ t. s.ring.buffer (slot s.ring.capacity (t + length out))) (sym h.reads_at));
    }

release-Holds :
    (r : ℕ) (out : List ℤ) (s : System)
    → Inv s.ring s.producer (loading r out zero) s.sent s.got
    → Holds (read_step (loading r out zero) s)
unfolding read_step contents load_all
release-Holds r out s h =
    let c = s.ring.capacity in
    let p = s.ring.read_pos in
    let b = s.ring.buffer in
    let k = length out in
    let ring = record s.ring { read_pos = add_64 r k } in
    let fewer : available ring ≡ available s.ring - k =
      available-release s.ring h.valid r k h.reads_at (omega (arith, h.enough)) in
    let front : add_64 r k % 2 ^ 64 ≡ (p + k) % 2 ^ 64 = omega (arith, h.reads_at) in
    record {
      valid = record {
        divides = h.valid.divides;
        small = h.valid.small;
        some_room = h.valid.some_room;
        read_in_range = omega arith;
        write_in_range = h.valid.write_in_range;
        fill = omega (arith, fewer, h.valid.fill);
      };
      history =
          h.history
          ∙ ap (λ t. s.got ++ t)
              (ap (λ n. load_all c p n b) (omega (arith, h.enough))
                ∙ load_all-add c h.valid.divides p k (available s.ring - k) b
                ∙ ap₂ (λ t u. t ++ u) h.loaded_at
                    (load_all-wrap c (p + k) (add_64 r k) (available s.ring - k) b (sym front)
                      ∙ ap (λ n. load_all c (add_64 r k) n b) (sym fewer)))
          ∙ sym (append_assoc s.got out (contents ring));
      writes_at = h.writes_at;
      reads_at = tt;
      room = omega (arith, fewer, h.room);
      stored_at =
          load_all-wrap c (add_64 r k + available ring) (p + available s.ring)
            (length (stored s.producer)) b (omega (arith, front, fewer, h.enough))
          ∙ h.stored_at;
      enough = omega arith;
      loaded_at = refl;
    }

pub read_step-Holds : (c : Consumer) (s : System) → s.consumer ≡ c → Holds s → Holds (read_step c s)
unfolding read_step
read_step-Holds Consumer.idle s e g = g
read_step-Holds (reading r n) s e g =
    start_loading-Holds r n s (subst (λ q. Inv s.ring s.producer q s.sent s.got) e g)
read_step-Holds (loading r out (suc k)) s e g =
    load_sample-Holds r k out s (subst (λ q. Inv s.ring s.producer q s.sent s.got) e g)
read_step-Holds (loading r out zero) s e g =
    release-Holds r out s (subst (λ q. Inv s.ring s.producer q s.sent s.got) e g)
