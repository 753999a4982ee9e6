-- ===== src/Protocol/Stream.antt =====
-- The receiving side as a whole: a stream of frames, behind noise, in reads cut anywhere.
use mathlib.Core.List.{append_assoc}
use ak.Base.{
  ℕ, suc, ◌+◌, ◌≡◌, refl, ap, ◌∙◌, sym, true, List, [], ◌∷◌, ◌++◌, none, some, arith, length,
  length-append, drop,
}
use ak.Protocol.{
  Bytes, Protocol, seeking_start, reading_length, Frame, advance, switch, step, append_data,
  process_buffer, start_marker, find_start_marker, begins_with,
}
use ak.Protocol.Seek.{begins_with-append}
use ak.Protocol.Step.{step_seeking}
use ak.Protocol.Runs.{Runs, Runs-process_buffer}
use ak.Protocol.Bounds.{IsQuiet}
use ak.Protocol.Chunks.{Runs_of_step, feed_all, feed_all-process_buffer, Small, concat}
use ak.Protocol.RoundTrip.{at, step_start, encode-append, encode_all, Fit, IsIdle, Runs_frames}

abbrev pub marker_head : Bytes
marker_head = 0xFE ∷ 0xFD ∷ 0xFC ∷ []

-- No start marker begins in the noise, not even one that a marker behind it would complete.
abbrev pub IsNoise : Bytes → Type 0
IsNoise g = find_start_marker (g ++ marker_head) ≡ none

marker_at_noise :
    (x : ℕ) (g b : Bytes)
    → begins_with start_marker (x ∷ (g ++ (start_marker ++ b)))
      ≡ begins_with start_marker (x ∷ (g ++ marker_head))
marker_at_noise x g b =
    ap (λ t. begins_with start_marker (x ∷ t)) (sym (append_assoc g marker_head (0xFB ∷ b)))
    ∙ begins_with-append start_marker (x ∷ (g ++ marker_head)) (0xFB ∷ b)
        (omega (arith, length-append g marker_head))

find_start_marker-noise :
    (g b : Bytes) → IsNoise g → find_start_marker (g ++ (start_marker ++ b)) ≡ some (length g)
unfolding find_start_marker
find_start_marker-noise [] b h = unfold begins_with in refl
find_start_marker-noise (x ∷ g) b h =
    ground (arith, marker_at_noise x g b, find_start_marker-noise g b)

drop_noise : (g b : Bytes) → drop (length g + 4) (g ++ (start_marker ++ b)) ≡ b
drop_noise [] b = refl
drop_noise (x ∷ g) b =
    let e : suc (length g) + 4 ≡ suc (length g + 4) = omega arith in rw e (drop_noise g b)

seek_found :
    (p : Protocol) (b : Bytes) (e i : ℕ)
    → find_start_marker b ≡ some i
    → switch seeking_start (at seeking_start b e p)
      ≡ advance (at reading_length (drop (i + 4) b) e p) []
unfolding switch
seek_found p b e i h = ground arith

-- The parser steps over noise to the marker behind it.
step_noise :
    (p : Protocol) (g b : Bytes) (e : ℕ)
    → IsNoise g
    → step (at seeking_start (g ++ (start_marker ++ b)) e p)
      ≡ step (at seeking_start (start_marker ++ b) e p)
step_noise p g b e h =
    step_seeking (at seeking_start (g ++ (start_marker ++ b)) e p) refl
    ∙ seek_found p (g ++ (start_marker ++ b)) e (length g) (find_start_marker-noise g b h)
    ∙ ap (λ t. advance (at reading_length t e p) []) (drop_noise g b)
    ∙ sym (step_start p b e)

IsIdle-IsQuiet : {p : Protocol} → IsIdle p → IsQuiet p
unfolding step
IsIdle-IsQuiet {p} v = ground (arith, v.seeking, v.empty)

stream_Runs :
    (p : Protocol) (g : Bytes) (f : Frame) (fs : List Frame) (e : ℕ)
    → p.has_callback ≡ true
    → IsNoise g
    → Fit (f ∷ fs)
    → (n : ℕ) × Runs
        (at seeking_start (g ++ encode_all (f ∷ fs)) e p)
        (at seeking_start [] n p)
        (f ∷ fs)
unfolding encode_all
stream_Runs p g f fs e c noise h =
    let (n, r) = Runs_frames p (f ∷ fs) e c h in
    (
      n,
      rw (encode-append f.kind f.payload (encode_all fs) h.0) (
          Runs_of_step (step_noise p g _ e noise)
            (rw (encode-append f.kind f.payload (encode_all fs) h.0) at r)),
    )

idle_at :
    (p : Protocol) (b : Bytes) → IsIdle p → append_data p b ≡ at seeking_start b p.expected_length p
unfolding append_data
idle_at p b v = ground (arith, v.seeking, v.empty)

-- A parser at rest, given in reads of at most 1 MiB, cut anywhere, some noise and behind it the
-- encodings of frames of at most 1 MiB, dispatches exactly those frames, in order, and is at rest
-- again.
pub feed_all-encode_all :
    (p : Protocol) (cs : List Bytes) (g : Bytes) (f : Frame) (fs : List Frame)
    → IsIdle p
    → p.has_callback ≡ true
    → IsNoise g
    → Fit (f ∷ fs)
    → Small cs
    → concat cs ≡ g ++ encode_all (f ∷ fs)
    → (q : Protocol) × (feed_all p cs ≡ some (q, f ∷ fs)) × IsIdle q
feed_all-encode_all p cs g f fs v c noise h small e =
    let (n, r) = stream_Runs p g f fs p.expected_length c noise h in
    (
      at seeking_start [] n p,
      feed_all-process_buffer p cs (IsIdle-IsQuiet v) small
          ∙ ap process_buffer (idle_at p (concat cs) v)
          ∙ rw e (Runs-process_buffer r),
      record { seeking = refl; empty = refl },
    )
