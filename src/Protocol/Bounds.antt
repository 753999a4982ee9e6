-- ===== src/Protocol/Bounds.antt =====
-- What holds of the parser between two reads, and how large its buffer can grow.
use ak.Base.{
  ◌*◌, ◌≤◌, ◌<◌, ◌≡◌, refl, ap, ◌∙◌, sym, List, [], ◌++◌, inl, inr, none, some, arith, length,
  length-append, Option-cases, Bool-cases, ltb, true, false,
}
use ak.Protocol.{
  Bytes, Protocol, seeking_start, reading_payload, Frame, wait, advance, switch, step, append_data,
  feed_data, max_frame_size, initial, process_buffer, find_start_marker, keep_last3, reset,
}
use mathlib.Core.Path.{subst}
use ak.Protocol.Seek.{length-keep_last3, keep_last3-small, find_start_marker_bound}
use ak.Protocol.Step.{step_wait}
use ak.Protocol.Runs.{Runs, stop, more, Runs_total, Runs-process_buffer}

-- Between two reads: another round would return at once, and a payload that is waited for is not
-- longer than the largest frame.
pub record IsQuiet (p : Protocol) : Type 0 where
  pub settled : step p ≡ wait p
  pub payload_bound : p.state ≡ reading_payload → p.expected_length ≤ max_frame_size

pub initial-IsQuiet : IsQuiet initial
unfolding step
initial-IsQuiet = record { settled = refl; payload_bound = λ e. ground arith }

-- The buffer of a quiet parser is shorter than a frame.
pub length-buffer-lt : {p : Protocol} → IsQuiet p → length p.buffer < max_frame_size
unfolding step switch
length-buffer-lt {p} v = ground (arith, length-keep_last3 p.buffer, v.payload_bound)

abbrev pub PayloadBound : Protocol → Type 0
PayloadBound p = p.state ≡ reading_payload → p.expected_length ≤ max_frame_size

step-PayloadBound :
    (p : Protocol) {q : Protocol} {fs : List Frame} → step p ≡ advance q fs → PayloadBound q
unfolding step switch
step-PayloadBound p a e = ground arith

find_start_marker-keep_last3 : (xs : Bytes) → find_start_marker (keep_last3 xs) ≡ none
find_start_marker-keep_last3 xs = elim (Option-cases (find_start_marker (keep_last3 xs))) [
  | inl n ↦ n
  | inr (i, f) ↦
      absurd (omega (arith, find_start_marker_bound (keep_last3 xs) i f, length-keep_last3 xs))
]

seek_settled :
    (p : Protocol)
    → p.state ≡ seeking_start
    → let q = record p { buffer = keep_last3 p.buffer } in step q ≡ wait q
unfolding step switch
seek_settled p e = ground (
  arith,
  find_start_marker-keep_last3 p.buffer,
  keep_last3-small (keep_last3 p.buffer),
  length-keep_last3 p.buffer,
)

wait_settled : (p : Protocol) {q : Protocol} → step p ≡ wait q → step q ≡ wait q
wait_settled p a = elim (step_wait p a) [
  | inl e ↦ subst (λ x. step x ≡ wait x) (sym e) (a ∙ ap wait e)
  | inr (at, missing, e) ↦ subst (λ x. step x ≡ wait x) (sym e) (seek_settled p at)
]

wait-PayloadBound :
    (p : Protocol) {q : Protocol} → step p ≡ wait q → PayloadBound p → PayloadBound q
unfolding step switch
wait-PayloadBound p a b e = ground (arith, b)

-- The loop returns in a quiet state.
pub Runs-IsQuiet : {p q : Protocol} {fs : List Frame} → Runs p q fs → PayloadBound p → IsQuiet q
Runs-IsQuiet (stop {p} s) b = record {
  settled = wait_settled p s;
  payload_bound = wait-PayloadBound p s b;
}
Runs-IsQuiet (more {p} s r e) b = Runs-IsQuiet r (step-PayloadBound p s)

-- Feeding a quiet parser no more than a frame's worth of bytes never resets it: what it does is
-- run its loop over the bytes that it held and those that arrive.
pub feed_data-process_buffer :
    (p : Protocol) (b : Bytes)
    → IsQuiet p
    → length b ≤ max_frame_size
    → feed_data p b ≡ process_buffer (append_data p b)
unfolding feed_data append_data
feed_data-process_buffer p b v h = ground (arith, length-append p.buffer b, length-buffer-lt v)

reset-IsQuiet : (p : Protocol) → IsQuiet (reset p)
unfolding reset step
reset-IsQuiet p = record { settled = refl; payload_bound = λ e. ground arith }

overflow-reset :
    (p : Protocol) (b : Bytes)
    → ltb (max_frame_size * 2) (length (p.buffer ++ b)) ≡ true
    → feed_data p b ≡ some (reset (append_data p b), [])
unfolding feed_data append_data
overflow-reset p b h = rw h

no_overflow :
    (p : Protocol) (b : Bytes)
    → ltb (max_frame_size * 2) (length (p.buffer ++ b)) ≡ false
    → feed_data p b ≡ process_buffer (append_data p b)
unfolding feed_data append_data
no_overflow p b h = rw h

pub append_data-PayloadBound :
    (p : Protocol) (b : Bytes) → IsQuiet p → PayloadBound (append_data p b)
unfolding append_data
append_data-PayloadBound p b v = v.payload_bound

-- Whatever bytes arrive, and however many, a quiet parser returns with some frames, is quiet
-- again, and holds less than 1 MiB.
pub feed_data-IsQuiet :
    (p : Protocol) (b : Bytes)
    → IsQuiet p
    → (q : Protocol) × (fs : List Frame) × (feed_data p b ≡ some (q, fs))
      × IsQuiet q
      × (length q.buffer < max_frame_size)
feed_data-IsQuiet p b v = elim (Bool-cases (ltb (max_frame_size * 2) (length (p.buffer ++ b)))) [
  | inl over ↦
      let w = reset-IsQuiet (append_data p b) in
      (reset (append_data p b), [], overflow-reset p b over, w, length-buffer-lt w)
  | inr fits ↦
      let (q, fs, r) = Runs_total (append_data p b) in
      let w = Runs-IsQuiet r (append_data-PayloadBound p b v) in
      (q, fs, no_overflow p b fits ∙ Runs-process_buffer r, w, length-buffer-lt w)
]
