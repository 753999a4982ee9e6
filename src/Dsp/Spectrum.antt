-- ===== src/Dsp/Spectrum.antt =====
-- core/src/dsp/spectrum_processor.{h,cpp}. Each method holds the mutex from its first line to its last.
use ak.Base.{
  ℕ, min, Bool, true, false, ◌||◌, List, [], ◌∷◌, ltb, ◌==◌, if◌then◌else◌, length, take, replicate,
}
use ak.Base.Int.{ℤ, pos, negsuc}
use ak.Dsp.{Floats, clamp}

abbrev pub max_bins : ℕ
max_bins = 4096

pub record SpectrumProcessor (f : Floats) : Type 0 where
  pub current : List f.Float
  pub smoothed : List f.Float
  pub bin_count : ℕ
  pub alpha : f.Float
  pub first_frame : Bool

module _ (f : Floats) where
  -- -120 dB
  abbrev pub floor : f.Float
  floor = f.of_int (negsuc 119)

  abbrev pub new : SpectrumProcessor f
  new = record {
    current = replicate max_bins floor;
    smoothed = replicate max_bins floor;
    bin_count = 0;
    alpha = f.three_tenths;
    first_frame = true;
  }

  -- The first elements of a vector replaced.
  unfoldable pub overwrite : List f.Float → List f.Float → List f.Float
  overwrite [] ys = ys
  overwrite (x ∷ xs) [] = []
  overwrite (x ∷ xs) (y ∷ ys) = x ∷ overwrite xs ys

  -- One bin: `m_alpha * bins[i] + oneMinusAlpha * m_smoothed[i]`.
  unfoldable pub blend : f.Float → f.Float → f.Float → f.Float
  blend alpha x y = f.plus (f.times alpha x) (f.times (f.minus (f.of_int (pos 1)) alpha) y)

  unfoldable pub blend_all : f.Float → List f.Float → List f.Float → List f.Float
  unfolding blend
  blend_all alpha [] ys = []
  blend_all alpha (x ∷ xs) [] = []
  blend_all alpha (x ∷ xs) (y ∷ ys) = blend alpha x y ∷ blend_all alpha xs ys

  -- The two loops over the bins.
  unfoldable pub store : List f.Float → SpectrumProcessor f → SpectrumProcessor f
  unfolding overwrite
  store values p = record p {
    smoothed = overwrite values p.smoothed;
    current = overwrite values p.current;
    first_frame = false;
  }

  unfoldable pub process_bins : List f.Float → SpectrumProcessor f → SpectrumProcessor f
  unfolding store blend_all
  process_bins bins p =
      if p.first_frame then store bins p else store (blend_all p.alpha bins p.smoothed) p

  unfoldable pub count_bins : ℕ → SpectrumProcessor f → SpectrumProcessor f
  count_bins count p =
      if count == p.bin_count then p else record p { first_frame = true; bin_count = count }

  -- The reference level is not used.
  unfoldable pub process : List f.Float → ℤ → SpectrumProcessor f → SpectrumProcessor f
  unfolding count_bins process_bins
  process bins ref_level p =
      if length bins == 0 || ltb max_bins (length bins)
      then p
      else process_bins bins (count_bins (length bins) p)

  unfoldable pub get_processed : ℕ → SpectrumProcessor f → List f.Float
  get_processed max_count p = take (min p.bin_count max_count) p.current

  unfoldable pub get_last_bin_count : SpectrumProcessor f → ℕ
  get_last_bin_count p = p.bin_count

  unfoldable pub set_smoothing : f.Float → SpectrumProcessor f → SpectrumProcessor f
  unfolding clamp
  set_smoothing alpha p = record p { alpha = clamp f alpha (f.of_int (pos 0)) (f.of_int (pos 1)) }

  unfoldable pub reset : SpectrumProcessor f → SpectrumProcessor f
  reset p = record p {
    first_frame = true;
    smoothed = replicate max_bins floor;
    current = replicate max_bins floor;
  }
