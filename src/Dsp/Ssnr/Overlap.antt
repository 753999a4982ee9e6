-- ===== src/Dsp/Ssnr/Overlap.antt =====
-- Which elements of which frames nr_ssnr.cpp puts out.
use mathlib.Core.Path.{subst}
use ak.Base.{
  ℕ, suc, ◌+◌, ◌%◌, ◌<◌, ◌≤◌, ◌≡◌, ◌≢◌, refl, sym, ap, ap₂, ◌∙◌, ◌⊎◌, inl, inr, true, List, [], ◌∷◌,
  ◌++◌, map, length, length-append, arith, leb, ltb, if◌then◌else◌, Bool-cases,
}
use ak.Base.Int.{ℤ}
use ak.Dsp.{Floats}
use ak.Dsp.Ssnr.{Maths, NrSsnr, nought, put}
use ak.Dsp.Ssnr.Transform.{process_frame, analyse, reduce, magnitude, phase, update_noise, subtract}
use ak.Dsp.Ssnr.Stream.{shift, to_float, to_sample, take_frame, give, process_sample, process_all}
use ak.Dsp.Ssnr.Blocks.{
  reads, clear, fill, fill-below, fill-append, reads-fill, reads-same, put-other, clear-below,
  clear-above, clear-within, process_all-at,
}

module _ (f : Floats) (m : Maths f) where
  -- The parts of the state that a frame's processing leaves alone.
  record Kept (p q : NrSsnr f) : Type 0 where
    overlap : q.overlap_add ≡ p.overlap_add
    output : q.output_pos ≡ p.output_pos
    buffer : q.input_buffer ≡ p.input_buffer

  update_noise-Kept : (g : ℕ → f.Float) (p : NrSsnr f) → Kept p (update_noise f m g p)
  unfolding update_noise
  update_noise-Kept g p = elim (Bool-cases (ltb p.noise_frame_count 10)) [
    | inl t ↦ record { overlap = rw t; output = rw t; buffer = rw t }
    | inr t ↦ record { overlap = rw t; output = rw t; buffer = rw t }
  ]

  subtract-Kept : (g h : ℕ → f.Float) (p : NrSsnr f) → Kept p (subtract f m g h p)
  unfolding subtract
  subtract-Kept g h p = elim (Bool-cases p.noise_estimated) [
    | inl t ↦ record { overlap = ground arith; output = ground arith; buffer = ground arith }
    | inr t ↦ record { overlap = ground arith; output = ground arith; buffer = ground arith }
  ]

  process_frame-Kept : (b : ℕ → f.Float) (p : NrSsnr f) → Kept p (process_frame f m b p).0
  unfolding process_frame reduce analyse
  process_frame-Kept b p =
      let a = analyse f m b p in
      let u = update_noise-Kept (magnitude f m a) a in
      let s =
        subtract-Kept (magnitude f m a) (phase f m a) (update_noise f m (magnitude f m a) a) in
      record {
        overlap = s.overlap ∙ u.overlap;
        output = s.output ∙ u.output;
        buffer = s.buffer ∙ u.buffer;
      }

  -- A sample that fills the input buffer.
  abbrev filled : ℤ → NrSsnr f → NrSsnr f
  filled x s = record s {
    input_buffer = put s.input_pos (to_float f m x) s.input_buffer;
    input_pos = suc s.input_pos;
  }

  -- The frame that comes out when the input buffer is full.
  abbrev frame_at : ℤ → NrSsnr f → ℕ → f.Float
  frame_at x s = (process_frame f m (filled x s).input_buffer (filled x s)).1

  record Hop (s q : NrSsnr f) (buffer frame : ℕ → f.Float) : Type 0 where
    input : q.input_pos ≡ 128
    output : q.output_pos ≡ (s.output_pos + 1) % 256
    moved : (j : ℕ) → j < 128 → q.input_buffer j ≡ buffer (j + 128)
    overlap :
        (j : ℕ) → j < 256 → j ≢ s.output_pos → q.overlap_add j ≡ f.plus (s.overlap_add j) (frame j)

  give-Hop :
      (x : ℤ) (s : NrSsnr f)
      → Hop s (give f m (take_frame f m (filled x s))).0 (filled x s).input_buffer (frame_at x s)
  unfolding take_frame give shift
  give-Hop x s =
      let q = filled x s in
      let r = process_frame f m q.input_buffer q in
      let k = process_frame-Kept q.input_buffer q in
      let sum = λ (j : ℕ). f.plus (r.0.overlap_add j) (r.1 j) in
      let added = λ (j : ℕ). if ltb j 256 then sum j else r.0.overlap_add j in
      record {
        input = refl;
        output = ap (λ o. (o + 1) % 256) k.output;
        moved = λ j below.
            let t : ltb j 128 ≡ true = ground arith in
            ap (λ b. if b then r.0.input_buffer (j + 128) else r.0.input_buffer j) t
            ∙ ap (λ b. b (j + 128)) k.buffer;
        overlap = λ j below other.
            let t : ltb j 256 ≡ true = ground arith in
            put-other r.0.output_pos j (nought f) added (λ e. other (e ∙ k.output))
            ∙ ap (λ b. if b then sum j else r.0.overlap_add j) t
            ∙ ap (λ a. f.plus (a j) (r.1 j)) k.overlap;
      }

  process_sample-Hop :
      (x : ℤ) (s : NrSsnr f)
      → s.input_pos ≡ 255
      → Hop s (process_sample f m x s).0 (filled x s).input_buffer (frame_at x s)
  unfolding process_sample
  process_sample-Hop x s h =
      let t : leb 256 (suc s.input_pos) ≡ true = ground (arith, h) in
      subst
        (λ b.
          Hop s (give f m (if b then take_frame f m (filled x s) else filled x s)).0
            (filled x s).input_buffer (frame_at x s))
        (sym t) (give-Hop x s)

  process_all-append :
      (xs ys : List ℤ) (p : NrSsnr f)
      → (process_all f m (xs ++ ys) p).0 ≡ (process_all f m ys (process_all f m xs p).0).0
  unfolding process_all
  process_all-append [] ys p = refl
  process_all-append (x ∷ xs) ys p = process_all-append xs ys (process_sample f m x p).0

  -- What `processFrame` is given when the last of a hop's samples fills the input buffer.
  unfoldable pub input_of : List ℤ → ℤ → NrSsnr f → ℕ → f.Float
  input_of xs x p = (filled x (process_all f m xs p).0).input_buffer

  -- The frame that `processFrame` then gives.
  unfoldable pub frame_of : List ℤ → ℤ → NrSsnr f → ℕ → f.Float
  unfolding input_of
  frame_of xs x p = (process_frame f m (input_of xs x p) (filled x (process_all f m xs p).0)).1

  -- Between two hops, at one half of the overlap buffer or the other.
  pub record Boundary (o : ℕ) (p : NrSsnr f) : Type 0 where
    pub input : p.input_pos ≡ 128
    pub output : p.output_pos ≡ o
    pub half : (o ≡ 0) ⊎ (o ≡ 128)

  -- A hop of samples from one boundary to the next.
  record Hopped (o : ℕ) (p q : NrSsnr f) (buffer frame : ℕ → f.Float) : Type 0 where
    boundary : Boundary ((o + 128) % 256) q
    moved : (j : ℕ) → j < 128 → q.input_buffer j ≡ buffer (j + 128)
    overlap :
        (j : ℕ)
        → j < 256
        → j ≢ o + 127
        → q.overlap_add j ≡ f.plus (clear (nought f) 127 o p.overlap_add j) (frame j)

  process_all-Hopped :
      (xs : List ℤ) (x : ℤ) (o : ℕ) (p : NrSsnr f)
      → length xs ≡ 127
      → Boundary o p
      → Hopped o p (process_all f m (xs ++ x ∷ []) p).0 (input_of xs x p) (frame_of xs x p)
  unfolding process_all frame_of input_of
  process_all-Hopped xs x o p n b =
      let s = (process_all f m xs p).0 in
      let e =
        process_all-at f m xs p p.input_buffer p.overlap_add p.input_pos p.output_pos
          (omega (arith, n, b.input)) (omega (arith, n, b.output, b.half)) in
      let i : s.input_pos ≡ 255 = ap (λ r. r.0.input_pos) e ∙ omega (arith, n, b.input) in
      let w : s.output_pos ≡ o + 127 = ap (λ r. r.0.output_pos) e ∙ omega (arith, n, b.output) in
      let h = process_sample-Hop x s i in
      let cleared : s.overlap_add ≡ clear (nought f) 127 o p.overlap_add =
        ap (λ r. r.0.overlap_add) e
        ∙ ap₂ (λ k o'. clear (nought f) k o' p.overlap_add) n b.output in
      subst (λ q. Hopped o p q (input_of xs x p) (frame_of xs x p))
        (sym (process_all-append xs (x ∷ []) p))
        (record {
          boundary = record {
            input = h.input;
            output = h.output ∙ omega (arith, w);
            half = elim b.half [ inl e ↦ inr (omega (arith, e)) | inr e ↦ inl (omega (arith, e)) ];
          };
          moved = h.moved;
          overlap = λ j below other.
              h.overlap j below (λ e. other (e ∙ w))
              ∙ ap (λ a. f.plus (a j) (frame_of xs x p j)) cleared;
        })

  -- The first 128 samples lead to a boundary.
  pub first-Boundary :
      (xs : List ℤ) (p : NrSsnr f)
      → length xs ≡ 128
      → p.input_pos ≡ 0
      → p.output_pos ≡ 0
      → Boundary 128 (process_all f m xs p).0
  first-Boundary xs p n i o =
      let e =
        process_all-at f m xs p p.input_buffer p.overlap_add p.input_pos p.output_pos
          (omega (arith, n, i)) (omega (arith, n, o)) in
      record {
        input = ap (λ r. r.0.input_pos) e ∙ omega (arith, n, i);
        output = ap (λ r. r.0.output_pos) e ∙ omega (arith, n, o);
        half = inr refl;
      }

  -- What stands where the third hop is read: the frames of the two hops before.
  two_frames :
      (o : ℕ) (p q r : NrSsnr f) (a b first second : ℕ → f.Float)
      → Boundary o p
      → Hopped o p q a first
      → Hopped ((o + 128) % 256) q r b second
      → (j : ℕ) → o ≤ j
      → j < o + 127
      → r.overlap_add j ≡ f.plus (f.plus (nought f) (first j)) (second j)
  two_frames o p q r a c first second b h k j low high =
      let next = (o + 128) % 256 in
      let kept : clear (nought f) 127 next q.overlap_add j ≡ q.overlap_add j = elim b.half [
        | inl e ↦ clear-below (nought f) 127 next j q.overlap_add (omega (arith, e))
        | inr e ↦ clear-above (nought f) 127 next j q.overlap_add (omega (arith, e))
      ] in
      k.overlap j (omega (arith, b.half)) (λ e. absurd (omega (arith, b.half, e)))
      ∙ ap (λ v. f.plus v (second j))
          (kept
            ∙ h.overlap j (omega (arith, b.half)) (λ e. absurd (omega (arith, e)))
            ∙ ap (λ v. f.plus v (first j)) (clear-within (nought f) 127 o j p.overlap_add low high))

  -- What a frame is made of: below the new samples, what stood in the buffer between the hops, and
  -- then the new samples.
  input_of-halves :
      (xs : List ℤ) (x : ℤ) (o : ℕ) (p : NrSsnr f)
      → length xs ≡ 127
      → Boundary o p
      → ((j : ℕ) → j < 128 → input_of xs x p j ≡ p.input_buffer j)
        × (reads 128 128 (input_of xs x p) ≡ map (to_float f m) (xs ++ x ∷ []))
  unfolding input_of
  input_of-halves xs x o p n b =
      let s = (process_all f m xs p).0 in
      let e =
        process_all-at f m xs p p.input_buffer p.overlap_add p.input_pos p.output_pos
          (omega (arith, n, b.input)) (omega (arith, n, b.output, b.half)) in
      let all = xs ++ x ∷ [] in
      let same : input_of xs x p ≡ fill f m all 128 p.input_buffer =
        ap (λ r. put r.0.input_pos (to_float f m x) r.0.input_buffer) e
        ∙ sym (fill-append f m xs x p.input_pos p.input_buffer)
        ∙ ap (λ i. fill f m all i p.input_buffer) b.input in
      let count : length all ≡ 128 = omega (arith, n, length-append xs (x ∷ [])) in
      (
        λ j below. ap (λ g. g j) same ∙ fill-below f m all 128 j p.input_buffer below,
        ap (reads 128 128) same
            ∙ ap (λ k. reads k 128 (fill f m all 128 p.input_buffer)) (sym count)
            ∙ reads-fill f m all 128 p.input_buffer,
      )

  -- Between two hops, with the output at one half of the overlap buffer or the other. The second of
  -- two hops of samples makes a frame of an input whose lower half is the upper half of the input of
  -- the first one's frame, and whose upper half are the new samples: the inputs are a hop apart. Yet
  -- of the third hop of samples that come in, each of the first 127 that go out is the sum of these
  -- two frames at one and the same index, that of the output position: the second frame is not
  -- added a hop further on.
  pub process_all-two_frames :
      (xs ys zs : List ℤ) (x y : ℤ) (o : ℕ) (p : NrSsnr f)
      → Boundary o p
      → length xs ≡ 127
      → length ys ≡ 127
      → length zs ≡ 127
      → let q = (process_all f m (xs ++ x ∷ []) p).0 in
        let r = (process_all f m (ys ++ y ∷ []) q).0 in
        ((j : ℕ) → j < 128 → input_of ys y q j ≡ input_of xs x p (j + 128))
        × (reads 128 128 (input_of ys y q) ≡ map (to_float f m) (ys ++ y ∷ []))
        × ((process_all f m zs r).1
            ≡ map (to_sample f m) (
                reads 127 o
                  (λ j. f.plus (f.plus (nought f) (frame_of xs x p j)) (frame_of ys y q j))))
  process_all-two_frames xs ys zs x y o p b l n k =
      let q = (process_all f m (xs ++ x ∷ []) p).0 in
      let r = (process_all f m (ys ++ y ∷ []) q).0 in
      let h1 = process_all-Hopped xs x o p l b in
      let h2 = process_all-Hopped ys y ((o + 128) % 256) q n h1.boundary in
      let back : r.output_pos ≡ o = omega (arith, h2.boundary.output, b.half) in
      let (lower, upper) = input_of-halves ys y ((o + 128) % 256) q n h1.boundary in
      (
        λ j below. lower j below ∙ h1.moved j below,
        upper,
        ap (λ t. t.1)
              (process_all-at f m zs r r.input_buffer r.overlap_add r.input_pos r.output_pos
                (omega (arith, k, h2.boundary.input)) (omega (arith, k, back, b.half)))
            ∙ ap₂ (λ c d. map (to_sample f m) (reads c d r.overlap_add)) k back
            ∙ ap (map (to_sample f m)) (
                reads-same 127 o r.overlap_add
                  (λ j. f.plus (f.plus (nought f) (frame_of xs x p j)) (frame_of ys y q j))
                  (two_frames o p q r (input_of xs x p) (input_of ys y q) (frame_of xs x p)
                    (frame_of ys y q) b h1 h2)),
      )
