-- ===== src/Protocol/Chunks.antt =====
-- `feedData` called for one read behind another: protocol.cpp.
use mathlib.Core.Option
use mathlib.Core.Option.{Option}
use mathlib.Core.Path.{subst}
use mathlib.Core.List.{append_assoc, append-nil}
use ak.Base.{◌≤◌, ◌≡◌, refl, ap, ◌∙◌, sym, List, [], ◌∷◌, ◌++◌, inl, inr, none, some, arith, length}
use ak.Protocol.{
  Bytes, Protocol, Frame, step, append_data, feed_data, process_buffer, max_frame_size,
}
use ak.Protocol.Step.{step-append, step_wait, step-keep_last3}
use ak.Protocol.Bounds.{IsQuiet, Runs-IsQuiet, append_data-PayloadBound, feed_data-process_buffer}
use ak.Protocol.Runs.{Runs, stop, more, Runs_total, Runs-process_buffer}

-- Parsers that make the same first round have the same runs.
pub Runs_of_step :
    {p p' q : Protocol} {fs : List Frame} → step p ≡ step p' → Runs p' q fs → Runs p q fs
Runs_of_step e (stop s) = stop (e ∙ s)
Runs_of_step e (more s r t) = more (e ∙ s) r t

-- Running over the bytes in hand, and then over what is left with more bytes behind, is running
-- over all of them.
pub Runs-append :
    {p q r : Protocol} {fs gs : List Frame} (b : Bytes)
    → Runs p q fs
    → Runs (append_data q b) r gs
    → Runs (append_data p b) r (fs ++ gs)
Runs-append {r = r} {gs = gs} b (stop {p} s) later = elim (step_wait p s) [
  | inl e ↦ subst (λ x. Runs (append_data x b) r gs) e later
  | inr (at, missing, e) ↦
      Runs_of_step (sym (step-keep_last3 p b at missing))
        (subst (λ x. Runs (append_data x b) r gs) e later)
]
Runs-append {gs = gs} b (more {p} {fs = fs} {gs = hs} s t e) later =
    more (step-append p b s) (Runs-append b t later) (ap (λ x. x ++ gs) e ∙ append_assoc fs hs gs)

-- The calls of the data callback, one for each read.
unfoldable pub feed_all : Protocol → List Bytes → Option (Protocol × List Frame)
feed_all p [] = some (p, [])
feed_all p (c ∷ cs) = elim (feed_data p c) [
  | none ↦ none
  | some (q, fs) ↦ Option.map (λ t. (t.0, fs ++ t.1)) (feed_all q cs)
]

abbrev pub Small : List Bytes → Type 0
Small [] = Unit
Small (c ∷ cs) = (length c ≤ max_frame_size) × Small cs

unfoldable pub concat : List Bytes → Bytes
concat [] = []
concat (c ∷ cs) = c ++ concat cs

append_data-append :
    (p : Protocol) (b c : Bytes) → append_data (append_data p b) c ≡ append_data p (b ++ c)
unfolding append_data
append_data-append p b c = rw append_assoc

append_data-nil : (p : Protocol) → append_data p [] ≡ p
unfolding append_data
append_data-nil p = rw append-nil

-- The calls return what one run over all the bytes returns.
feed_all-Runs :
    (p : Protocol) (cs : List Bytes)
    → IsQuiet p
    → Small cs
    → (q : Protocol) × (fs : List Frame) × (feed_all p cs ≡ some (q, fs))
      × Runs (append_data p (concat cs)) q fs
unfolding feed_all concat
feed_all-Runs p [] v h = (p, [], refl, stop (rw append_data-nil v.settled))
feed_all-Runs p (c ∷ cs) v h =
    let (q, fs, r) = Runs_total (append_data p c) in
    let w = Runs-IsQuiet r (append_data-PayloadBound p c v) in
    let (t, gs, e, later) = feed_all-Runs q cs w h.1 in
    (
      t,
      fs ++ gs,
      ground (arith, feed_data-process_buffer p c v h.0, Runs-process_buffer r),
      subst (λ x. Runs x t (fs ++ gs)) (append_data-append p c (concat cs))
          (Runs-append (concat cs) r later),
    )

-- However the stream is cut into reads of at most 1 MiB, a quiet parser ends in the state, and
-- dispatches the frames, in which one run over the whole stream ends: no frame is lost,
-- duplicated or reordered at a cut, wherever in a marker, length or payload it falls.
pub feed_all-process_buffer :
    (p : Protocol) (cs : List Bytes)
    → IsQuiet p
    → Small cs
    → feed_all p cs ≡ process_buffer (append_data p (concat cs))
feed_all-process_buffer p cs v h =
    let (q, fs, e, r) = feed_all-Runs p cs v h in e ∙ sym (Runs-process_buffer r)
