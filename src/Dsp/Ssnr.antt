-- ===== src/Dsp/Ssnr.antt =====
-- core/src/dsp/nr_ssnr.{h,cpp}: noise reduction by spectral subtraction. The vectors are functions
-- of the index, of which those below their size are used. The vector `m_outputBuffer` is not used.
pub mod Transform
pub mod Stream
pub mod Blocks
pub mod Overlap
use ak.Base.{
  ℕ, zero, suc, ◌+◌, ◌%◌, Bool, true, false, not, List, [], ◌∷◌, ltb, leb, ◌==◌, ◌&&◌, ◌||◌,
  if◌then◌else◌,
}
use ak.Base.Int.{ℤ, pos, negsuc}
use ak.Dsp.{Floats, clamp}
use ak.Dsp.Lms.{clamp_level}

-- The type `double` and the mathematics of the C++ library, beside the type `float`.
pub record Maths (f : Floats) : Type 1 where
  pub Double : Type 0
  pub widen : f.Float → Double
  pub narrow : Double → f.Float
  pub of_int : ℤ → Double
  pub minus : Double → Double → Double
  pub times : Double → Double → Double
  pub divided : Double → Double → Double
  pub cos_double : Double → Double
  pub cos : f.Float → f.Float
  pub sin : f.Float → f.Float
  pub sqrt : f.Float → f.Float
  pub atan2 : f.Float → f.Float → f.Float
  -- `M_PI`, and the float literal of so many units of a power of ten
  pub pi : Double
  pub literal : ℕ → ℕ → f.Float

abbrev pub fft_size : ℕ
fft_size = 256

abbrev pub hop_size : ℕ
hop_size = 128

pub record NrSsnr (f : Floats) : Type 0 where
  pub enabled : Bool
  pub level : ℕ
  pub over_subtraction : f.Float
  pub noise_floor_smoothing : f.Float
  pub spectral_floor : f.Float
  pub input_buffer : ℕ → f.Float
  pub window : ℕ → f.Float
  pub noise_estimate : ℕ → f.Float
  pub fft_real : ℕ → f.Float
  pub fft_imag : ℕ → f.Float
  pub overlap_add : ℕ → f.Float
  pub input_pos : ℕ
  pub output_pos : ℕ
  pub noise_estimated : Bool
  pub noise_frame_count : ℕ

-- A vector with one element stored.
unfoldable pub put : {A : Type 0} → ℕ → A → (ℕ → A) → ℕ → A
put i x b j = if j == i then x else b j

module _ (f : Floats) where
  abbrev pub nought : f.Float
  nought = f.of_int (pos 0)

  abbrev pub one : f.Float
  one = f.of_int (pos 1)

  module _ (m : Maths f) where
    unfoldable pub set_level : ℤ → NrSsnr f → NrSsnr f
    unfolding clamp_level
    set_level level p =
        let l = clamp_level level in
        let floor = f.minus (m.literal 2 2) (f.times (f.of_int (pos l)) (m.literal 1 3)) in
        record p {
          level = l;
          over_subtraction = f.plus one (f.times (f.of_int (pos l)) (m.literal 4 1));
          spectral_floor = if f.less floor (m.literal 5 3) then m.literal 5 3 else floor;
        }

    -- `initWindow`, with its arithmetic on the type `double`.
    unfoldable pub hann : ℕ → f.Float
    hann i =
        let angle =
          m.divided (m.times (m.times (m.of_int (pos 2)) m.pi) (m.of_int (pos i)))
            (m.of_int (pos 255)) in
        m.narrow
          (m.times (m.widen (m.literal 5 1)) (m.minus (m.of_int (pos 1)) (m.cos_double angle)))

    unfoldable pub new : NrSsnr f
    unfolding set_level hann
    new = set_level (pos 5) (record {
      enabled = false;
      level = 5;
      over_subtraction = f.of_int (pos 2);
      noise_floor_smoothing = m.literal 98 2;
      spectral_floor = m.literal 1 2;
      input_buffer = λ i. nought;
      window = hann;
      noise_estimate = λ i. nought;
      fft_real = λ i. nought;
      fft_imag = λ i. nought;
      overlap_add = λ i. nought;
      input_pos = 0;
      output_pos = 0;
      noise_estimated = false;
      noise_frame_count = 0;
    })

  unfoldable pub reset : NrSsnr f → NrSsnr f
  reset p = record p {
    input_buffer = λ i. nought;
    overlap_add = λ i. nought;
    noise_estimate = λ i. nought;
    input_pos = 0;
    output_pos = 0;
    noise_estimated = false;
    noise_frame_count = 0;
  }
