-- ===== src/Dsp/Ssnr/Stream.antt =====
-- `process` of nr_ssnr.cpp: samples in, frames at every hop, samples out.
use ak.Base.{ℕ, suc, ◌+◌, ◌%◌, not, List, [], ◌∷◌, leb, if◌then◌else◌, ltb}
use ak.Base.Int.{ℤ, pos, negsuc}
use ak.Dsp.{Floats, clamp}
use ak.Dsp.Ssnr.{Maths, NrSsnr, nought, one, fft_size, hop_size, put}
use ak.Dsp.Ssnr.Transform.{process_frame}

module _ (f : Floats) (m : Maths f) where
  -- `static_cast<float>(samples[i]) / 32768.0f`
  unfoldable pub to_float : ℤ → f.Float
  to_float x = f.divided (f.of_int x) (f.of_int (pos 32768))

  -- The clamp and the conversion back.
  unfoldable pub to_sample : f.Float → ℤ
  to_sample x =
      f.to_int16 (f.times (clamp f x (f.of_int (negsuc 0)) (one f)) (f.of_int (pos 32767)))

  -- The input buffer moved down by a hop: `memmove` leaves the upper half as it is.
  unfoldable pub shift : (ℕ → f.Float) → ℕ → f.Float
  shift b j = if ltb j hop_size then b (j + hop_size) else b j

  -- A full frame.
  unfoldable pub take_frame : NrSsnr f → NrSsnr f
  unfolding shift
  take_frame p =
      let r = process_frame f m p.input_buffer p in
      record r.0 {
        overlap_add =
            λ j. if ltb j fft_size then f.plus (r.0.overlap_add j) (r.1 j) else r.0.overlap_add j;
        input_buffer = shift r.0.input_buffer;
        input_pos = hop_size;
      }

  -- The reading of one sample.
  unfoldable pub give : NrSsnr f → NrSsnr f × ℤ
  unfolding to_sample
  give p = (
    record p {
      overlap_add = put p.output_pos (nought f) p.overlap_add;
      output_pos = (p.output_pos + 1) % fft_size;
    },
    to_sample (p.overlap_add p.output_pos),
  )

  -- One round of the loop.
  unfoldable pub process_sample : ℤ → NrSsnr f → NrSsnr f × ℤ
  unfolding take_frame give to_float
  process_sample x p =
      let filled = record p {
        input_buffer = put p.input_pos (to_float x) p.input_buffer;
        input_pos = suc p.input_pos;
      } in
      give (if leb fft_size (suc p.input_pos) then take_frame filled else filled)

  unfoldable pub process_all : List ℤ → NrSsnr f → NrSsnr f × List ℤ
  unfolding process_sample
  process_all [] p = (p, [])
  process_all (x ∷ xs) p =
      let r = process_sample x p in let t = process_all xs r.0 in (t.0, r.1 ∷ t.1)

  -- The samples are changed in place. No sample is the count of 0.
  unfoldable pub process : List ℤ → NrSsnr f → NrSsnr f × List ℤ
  unfolding process_all
  process samples p = if not p.enabled then (p, samples) else process_all samples p
