-- ===== src/Protocol/RoundTrip.antt =====
-- What `encode` of protocol.cpp writes, in front of the parser.
use mathlib.Core.List.{append_assoc}
use ak.Base.{
  ℕ, ◌+◌, ◌%◌, ◌^◌, ◌≤◌, ◌<◌, ◌≡◌, refl, ap, true, List, [], ◌∷◌, ◌++◌, arith, length,
  length-append, take, drop, suc,
}
use ak.Protocol.{
  Bytes, Protocol, ParseState, seeking_start, reading_length, reading_payload, reading_end, Frame,
  wait, advance, switch, step, max_frame_size, encode, big_endian, read_length, start_marker,
  end_marker, find_start_marker, begins_with, dispatch,
}
use ak.Protocol.Runs.{Runs, stop, more}

abbrev pub at : ParseState → Bytes → ℕ → Protocol → Protocol
at s b n p = record p { state = s; buffer = b; expected_length = n }

pub step_start :
    (p : Protocol) (b : Bytes) (e : ℕ)
    → step (at seeking_start (start_marker ++ b) e p) ≡ advance (at reading_length b e p) []
unfolding step switch find_start_marker begins_with
step_start p b e = refl

read_length-big_endian : (n : ℕ) (b : Bytes) → n < 2 ^ 32 → read_length (big_endian n ++ b) ≡ n
unfolding read_length big_endian
read_length-big_endian n b h = omega arith

step_length :
    (p : Protocol) (b : Bytes) (e n : ℕ)
    → 0 < n
    → n ≤ max_frame_size
    → step (at reading_length (big_endian n ++ b) e p) ≡ advance (at reading_payload b n p) []
unfolding step switch big_endian read_length
step_length p b e n h m = ground arith

take-append_self : (xs ys : Bytes) → take (length xs) (xs ++ ys) ≡ xs
take-append_self [] ys = refl
take-append_self (x ∷ xs) ys = ap (λ t. x ∷ t) (take-append_self xs ys)

drop-append_self : (xs ys : Bytes) → drop (length xs) (xs ++ ys) ≡ ys
drop-append_self [] ys = refl
drop-append_self (x ∷ xs) ys = drop-append_self xs ys

step_payload :
    (p : Protocol) (k : ℕ) (payload b : Bytes)
    → p.has_callback ≡ true
    → step (at reading_payload (k ∷ (payload ++ b)) (suc (length payload)) p)
      ≡ advance
          (at reading_end b (suc (length payload)) p)
          (record { kind = k; payload = payload } ∷ [])
unfolding step switch dispatch
step_payload p k payload b c =
    ground (arith, take-append_self payload b, drop-append_self payload b, length-append payload b)

step_end :
    (p : Protocol) (b : Bytes) (e : ℕ)
    → step (at reading_end (end_marker ++ b) e p) ≡ advance (at seeking_start b e p) []
unfolding step switch
step_end p b e = ground arith

pub encode-append :
    (k : ℕ) (payload b : Bytes)
    → 1 + length payload ≤ max_frame_size
    → encode k payload ++ b
      ≡ start_marker ++ (big_endian (suc (length payload)) ++ (k ∷ (payload ++ (end_marker ++ b))))
unfolding encode big_endian
encode-append k payload b h =
    let e : (1 + length payload) % 2 ^ 32 ≡ suc (length payload) = omega arith in
    rw (e, append_assoc)

-- A parser between frames that has an encoded frame in front dispatches it, and goes on behind it.
pub Runs_frame :
    (p : Protocol) {q : Protocol} {gs : List Frame} (f : Frame) (b : Bytes) (e : ℕ)
    → p.has_callback ≡ true
    → 1 + length f.payload ≤ max_frame_size
    → Runs (at seeking_start b (suc (length f.payload)) p) q gs
    → Runs (at seeking_start (encode f.kind f.payload ++ b) e p) q (f ∷ gs)
Runs_frame p f b e c h r = rw (encode-append f.kind f.payload b h) (
    more (step_start p _ e)
      (more (step_length p _ e (suc (length f.payload)) (omega arith) (omega arith))
        (more (step_payload p f.kind f.payload (end_marker ++ b) c)
          (more (step_end p b (suc (length f.payload))) r refl) refl)
        refl)
      refl)

-- The frames one behind another, as a peer sends them.
unfoldable pub encode_all : List Frame → Bytes
encode_all [] = []
encode_all (f ∷ fs) = encode f.kind f.payload ++ encode_all fs

abbrev pub Fit : List Frame → Type 0
Fit [] = Unit
Fit (f ∷ fs) = (1 + length f.payload ≤ max_frame_size) × Fit fs

-- A parser at rest between two frames: it seeks a marker and holds no bytes.
pub record IsIdle (p : Protocol) : Type 0 where
  pub seeking : p.state ≡ seeking_start
  pub empty : p.buffer ≡ []

step_idle : (p : Protocol) (e : ℕ) → step (at seeking_start [] e p) ≡ wait (at seeking_start [] e p)
unfolding step
step_idle p e = refl

pub Runs_frames :
    (p : Protocol) (fs : List Frame) (e : ℕ)
    → p.has_callback ≡ true
    → Fit fs
    → (n : ℕ) × Runs (at seeking_start (encode_all fs) e p) (at seeking_start [] n p) fs
unfolding encode_all
Runs_frames p [] e c h = (e, stop (step_idle p e))
Runs_frames p (f ∷ fs) e c h =
    let (n, r) = Runs_frames p fs (suc (length f.payload)) c h.1 in
    (n, Runs_frame p f (encode_all fs) e c h.0 r)
