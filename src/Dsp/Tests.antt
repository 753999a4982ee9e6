-- ===== src/Dsp/Tests.antt =====
-- Signal processing at concrete inputs. A `float` is a number of tenths here.
use ak.Base.{
  ℕ, List, ◌++◌, map, replicate, ◌+◌, ◌-◌, ◌*◌, ◌/◌, ◌≤◌, ◌<◌, true, ltb, ◌≡◌, refl, [], ◌∷◌,
}
use ak.Base.Int.{ℤ, pos, negsuc}
use ak.Dsp.{Floats}
use ak.Dsp.Spectrum.{new, blend, blend_all}
use ak.Dsp.Lms.{process, set_enabled, set_level}
use ak.Dsp.Lms
use ak.Dsp.Ssnr
use ak.Dsp.Ssnr.{Maths, NrSsnr, nought}
use ak.Dsp.Ssnr.Stream
use ak.Dsp.Ssnr.Stream.{to_float, to_sample}
use ak.Dsp.Ssnr.Blocks.{reads}
use ak.Dsp.Ssnr.Overlap.{Boundary, input_of, frame_of, first-Boundary, process_all-two_frames}
use ak.Dsp.Lms.Window.{filter_all, silent, process-filter_all}
use ak.Dsp.Smoothing.{process_all, shown, shown_all}

of_whole : ℤ → ℕ
of_whole (pos n) = n * 10
of_whole (negsuc n) = 0

abbrev tenths : Floats
tenths = record {
  Float = ℕ;
  plus = λ x y. x + y;
  minus = λ x y. x - y;
  times = λ x y. x * y / 10;
  divided = λ x y. x * 10 / y;
  less = ltb;
  of_int = of_whole;
  to_int16 = λ x. pos (x / 10);
  three_tenths = 3;
  five_thousandths = 0;
  three_thousandths = 1;
}

average_of_two : shown_all tenths 3 (100 ∷ 50 ∷ []) ((200 ∷ 50 ∷ []) ∷ []) ≡ 130 ∷ 50 ∷ []
unfolding shown_all shown blend_all blend of_whole
average_of_two = refl

process-filter_all_example :
    let q = set_enabled tenths true (set_level tenths (pos 12) (Lms.new tenths)) in
    (40 ≤ q.taps)
    × (q.taps ≤ 112)
    × ((process tenths (pos 5 ∷ pos 7 ∷ []) q).1
        ≡ filter_all tenths q.taps q.mu (pos 5 ∷ pos 7 ∷ []) (silent tenths))
process-filter_all_example =
    process-filter_all tenths (pos 12) (Lms.new tenths) (pos 5 ∷ pos 7 ∷ [])

-- The mathematics of silence: no wave, and so no noise.
abbrev flat : Maths tenths
flat = record {
  Double = ℕ;
  widen = λ x. x;
  narrow = λ x. x;
  of_int = of_whole;
  minus = λ x y. x - y;
  times = λ x y. x * y / 10;
  divided = λ x y. x * 10 / y;
  cos_double = λ x. 0;
  cos = λ x. 0;
  sin = λ x. 0;
  sqrt = λ x. x;
  atan2 = λ y x. 0;
  pi = 31;
  literal = λ n k. n;
}

abbrev tone : List ℤ
tone = replicate 127 (pos 3276)

abbrev running : NrSsnr tenths
running = (Stream.process_all tenths flat (replicate 128 (pos 3276)) (Ssnr.new tenths flat)).0

running-Boundary : Boundary tenths flat 128 running
unfolding Ssnr.new Ssnr.set_level
running-Boundary =
    first-Boundary tenths flat (replicate 128 (pos 3276)) (Ssnr.new tenths flat) refl refl refl

process_all-two_frames_example :
    let q = (Stream.process_all tenths flat (tone ++ pos 1 ∷ []) running).0 in
    let r = (Stream.process_all tenths flat (tone ++ pos 2 ∷ []) q).0 in
    ((j : ℕ)
      → j < 128
      → input_of tenths flat tone (pos 2) q j ≡ input_of tenths flat tone (pos 1) running (j + 128))
    × (reads 128 128 (input_of tenths flat tone (pos 2) q)
        ≡ map (to_float tenths flat) (tone ++ pos 2 ∷ []))
    × ((Stream.process_all tenths flat tone r).1
        ≡ map (to_sample tenths flat) (
            reads 127 128 (λ j.
              tenths.plus
                (tenths.plus (nought tenths) (frame_of tenths flat tone (pos 1) running j))
                (frame_of tenths flat tone (pos 2) q j))))
process_all-two_frames_example =
    process_all-two_frames tenths flat tone tone tone (pos 1) (pos 2) 128 running running-Boundary
      refl refl refl
