-- ===== src/Dsp/Ssnr/Transform.antt =====
-- `processFrame` of nr_ssnr.cpp, with the two transforms.
use ak.Base.{ℕ, zero, suc, ltb, leb, ◌==◌, ◌||◌, if◌then◌else◌}
use ak.Base.Int.{ℤ, pos, negsuc}
use ak.Dsp.{Floats}
use ak.Dsp.Ssnr.{Maths, NrSsnr, nought, one, fft_size}

module _ (f : Floats) (m : Maths f) where
  -- The sum of the terms below a number, added one behind another to 0.
  unfoldable pub sum_below : ℕ → (ℕ → f.Float) → f.Float
  sum_below zero term = nought f
  sum_below (suc n) term = f.plus (sum_below n term) (term n)

  -- `factor * M_PI * k * n / N`, as a `float`.
  unfoldable pub angle : ℤ → ℕ → ℕ → f.Float
  angle factor k n = m.narrow (
      m.divided
        (m.times (m.times (m.times (m.of_int factor) m.pi) (m.of_int (pos k))) (m.of_int (pos n)))
        (m.of_int (pos fft_size)))

  -- `fftForward`: of the vectors, the elements up to N / 2 are written.
  unfoldable pub forward_real : (ℕ → f.Float) → (ℕ → f.Float) → ℕ → f.Float
  unfolding sum_below angle
  forward_real input old k =
      if leb k 128
      then sum_below fft_size (λ n. f.times (input n) (m.cos (angle (negsuc 1) k n)))
      else old k

  unfoldable pub forward_imag : (ℕ → f.Float) → (ℕ → f.Float) → ℕ → f.Float
  unfolding sum_below angle
  forward_imag input old k =
      if leb k 128
      then sum_below fft_size (λ n. f.times (input n) (m.sin (angle (negsuc 1) k n)))
      else old k

  -- `fftInverse`
  unfoldable pub contribution : (ℕ → f.Float) → (ℕ → f.Float) → ℕ → ℕ → f.Float
  unfolding angle
  contribution real imag n k =
      let a = angle (pos 2) k n in
      let c = f.minus (f.times (real k) (m.cos a)) (f.times (imag k) (m.sin a)) in
      if k == 0 || k == 128 then c else f.times (f.of_int (pos 2)) c

  unfoldable pub inverse : (ℕ → f.Float) → (ℕ → f.Float) → ℕ → f.Float
  unfolding sum_below contribution
  inverse real imag n =
      f.divided (sum_below 129 (contribution real imag n)) (f.of_int (pos fft_size))

  -- The noise estimate moves towards the magnitude.
  unfoldable pub smoothed : NrSsnr f → (ℕ → f.Float) → ℕ → f.Float
  smoothed p magnitude i =
      f.plus (f.times p.noise_floor_smoothing (p.noise_estimate i))
        (f.times (f.minus (one f) p.noise_floor_smoothing) (magnitude i))

  -- `Update noise estimate`: from the first ten frames, and then where the magnitude is small.
  unfoldable pub update_noise : (ℕ → f.Float) → NrSsnr f → NrSsnr f
  unfolding smoothed
  update_noise magnitude p =
      if ltb p.noise_frame_count 10
      then record p {
        noise_estimate = smoothed p magnitude;
        noise_frame_count = suc p.noise_frame_count;
        noise_estimated = leb 10 (suc p.noise_frame_count) || p.noise_estimated;
      }
      else record p {
        noise_estimate = λ i.
            if f.less (magnitude i) (f.times (p.noise_estimate i) (m.literal 15 1))
            then smoothed p magnitude i
            else p.noise_estimate i;
      }

  -- The gain of a bin: `std::max` gives its first argument unless it is less.
  unfoldable pub gain : NrSsnr f → (ℕ → f.Float) → ℕ → f.Float
  gain p magnitude i =
      let subtracted = f.minus (magnitude i) (f.times p.over_subtraction (p.noise_estimate i)) in
      let g = f.divided subtracted (f.plus (magnitude i) (m.literal 1 10)) in
      if f.less g p.spectral_floor then p.spectral_floor else g

  -- `Spectral subtraction`, below 129.
  unfoldable pub subtract : (ℕ → f.Float) → (ℕ → f.Float) → NrSsnr f → NrSsnr f
  unfolding gain
  subtract magnitude phase p =
      let scaled = λ (i : ℕ). f.times (gain p magnitude i) (magnitude i) in
      if p.noise_estimated
      then record p {
        fft_real = λ i. if leb i 128 then f.times (scaled i) (m.cos (phase i)) else p.fft_real i;
        fft_imag = λ i. if leb i 128 then f.times (scaled i) (m.sin (phase i)) else p.fft_imag i;
      }
      else p

  -- The window and the forward transform.
  unfoldable pub analyse : (ℕ → f.Float) → NrSsnr f → NrSsnr f
  unfolding forward_real forward_imag
  analyse frame p =
      let windowed = λ (i : ℕ). f.times (frame i) (p.window i) in
      record p {
        fft_real = forward_real windowed p.fft_real;
        fft_imag = forward_imag windowed p.fft_imag;
      }

  unfoldable pub magnitude : NrSsnr f → ℕ → f.Float
  magnitude p i =
      m.sqrt
        (f.plus (f.times (p.fft_real i) (p.fft_real i)) (f.times (p.fft_imag i) (p.fft_imag i)))

  unfoldable pub phase : NrSsnr f → ℕ → f.Float
  phase p i = m.atan2 (p.fft_imag i) (p.fft_real i)

  -- The state behind a frame.
  unfoldable pub reduce : NrSsnr f → NrSsnr f
  unfolding magnitude phase update_noise subtract
  reduce a = subtract (magnitude a) (phase a) (update_noise (magnitude a) a)

  -- The inverse transform, and the window again.
  unfoldable pub synthesise : NrSsnr f → ℕ → f.Float
  unfolding inverse
  synthesise q i = f.times (inverse q.fft_real q.fft_imag i) (q.window i)

  -- The state behind a frame, and the frame that comes out.
  unfoldable pub process_frame : (ℕ → f.Float) → NrSsnr f → NrSsnr f × (ℕ → f.Float)
  unfolding analyse reduce synthesise
  process_frame frame p = let q = reduce (analyse frame p) in (q, synthesise q)
