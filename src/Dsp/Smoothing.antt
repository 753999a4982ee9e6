-- ===== src/Dsp/Smoothing.antt =====
-- What the spectrum processor shows.
use ak.Base.{
  ℕ, ◌≤◌, ◌≡◌, true, false, List, [], ◌∷◌, ◌==◌, if◌then◌else◌, length, take, arith,
  length-replicate,
}
use ak.Base.Int.{ℤ}
use ak.Dsp.{Floats}
use ak.Dsp.Spectrum.{SpectrumProcessor, max_bins, blend_all, process, floor, new}

module _ (f : Floats) where
  -- Both vectors have their full length, and the number of bins fits.
  pub record IsSized (p : SpectrumProcessor f) : Type 0 where
    pub current_size : length p.current ≡ max_bins
    pub smoothed_size : length p.smoothed ≡ max_bins
    pub count_fits : p.bin_count ≤ max_bins

  -- What is shown of a frame behind what was shown: the frame itself, or, bin by bin, the
  -- exponential moving average.
  unfoldable pub shown : f.Float → List f.Float → List f.Float → List f.Float
  unfolding blend_all
  shown alpha before bins =
      if length bins == length before then blend_all f alpha bins before else bins

  visible : SpectrumProcessor f → List f.Float
  visible p = take p.bin_count p.current

  -- A processor that has a frame, which is the average that it goes on with.
  record Live (p : SpectrumProcessor f) : Type 0 where
    sized : IsSized p
    not_first : p.first_frame ≡ false
    in_step : take p.bin_count p.smoothed ≡ visible p

  -- A frame that is not refused.
  abbrev pub Fits : List f.Float → Type 0
  Fits bins = (1 ≤ length bins) × (length bins ≤ max_bins)

  restarted : ℕ → SpectrumProcessor f → SpectrumProcessor f
  restarted n p = record p { first_frame = true; bin_count = n }

  -- Frames one behind another.
  unfoldable pub process_all : ℤ → List (List f.Float) → SpectrumProcessor f → SpectrumProcessor f
  process_all ref [] p = p
  process_all ref (bins ∷ more) p = process_all ref more (process f bins ref p)

  -- The average that is shown behind them, given the first frame.
  unfoldable pub shown_all : f.Float → List f.Float → List (List f.Float) → List f.Float
  unfolding shown
  shown_all alpha before [] = before
  shown_all alpha before (bins ∷ more) = shown_all alpha (shown alpha before bins) more

  abbrev pub AllFit : List (List f.Float) → Type 0
  AllFit [] = 0 ≤ 0
  AllFit (bins ∷ more) = Fits bins × AllFit more

  pub new-IsSized : IsSized (new f)
  new-IsSized = record {
    current_size = length-replicate {A = f.Float} max_bins (floor f);
    smoothed_size = length-replicate {A = f.Float} max_bins (floor f);
    count_fits = omega arith;
  }
