-- ===== src/Dsp/Lms.antt =====
-- core/src/dsp/nr_lms.{h,cpp}: the adaptive filter. The vectors of weights and of the delay line are
-- functions of the index, of which those below the number of taps are used.
pub mod Window
use ak.Base.{
  ℕ, zero, suc, ◌+◌, ◌-◌, ◌*◌, ◌/◌, ◌%◌, Bool, true, false, not, List, [], ◌∷◌, ltb, leb, ◌==◌,
  if◌then◌else◌,
}
use ak.Base.Int.{ℤ, pos, negsuc}
use ak.Dsp.{Floats, clamp}

pub record NrLms (f : Floats) : Type 0 where
  pub enabled : Bool
  pub level : ℕ
  pub taps : ℕ
  pub mu : f.Float
  pub weights : ℕ → f.Float
  pub delay_line : ℕ → f.Float
  pub delay_index : ℕ

-- `std::clamp(level, 1, 10)`
unfoldable pub clamp_level : ℤ → ℕ
clamp_level (pos n) = if ltb n 1 then 1 else if ltb 10 n then 10 else n
clamp_level (negsuc n) = 1

-- The index of the input of so many samples ago: `(m_delayIndex - j + m_taps) % m_taps`, where the
-- sum is not negative.
unfoldable pub slot : ℕ → ℕ → ℕ → ℕ
slot taps index j = (index + taps - j) % taps

module _ (f : Floats) where
  abbrev pub nought : f.Float
  nought = f.of_int (pos 0)

  unfoldable pub reset : NrLms f → NrLms f
  reset p = record p { weights = λ j. nought; delay_line = λ j. nought; delay_index = 0 }

  unfoldable pub set_level : ℤ → NrLms f → NrLms f
  unfolding clamp_level
  set_level level p =
      let l = clamp_level level in
      record p {
        level = l;
        taps = 32 + l * 8;
        mu = f.plus f.five_thousandths (f.times (f.of_int (pos l)) f.three_thousandths);
        weights = λ j. nought;
        delay_line = λ j. nought;
        delay_index = 0;
      }

  unfoldable pub new : NrLms f
  unfolding set_level
  new = set_level (pos 5) (record {
    enabled = false;
    level = 5;
    taps = 64;
    mu = nought;
    weights = λ j. nought;
    delay_line = λ j. nought;
    delay_index = 0;
  })

  unfoldable pub set_enabled : Bool → NrLms f → NrLms f
  set_enabled enabled p = record p { enabled = enabled }

  unfoldable pub store : ℕ → f.Float → (ℕ → f.Float) → ℕ → f.Float
  store i x line j = if j == i then x else line j

  -- `for (j = 0; j < n; ++j) sum += weights[j] * line[slot(j)];`
  unfoldable pub sum : ℕ → (ℕ → f.Float) → (ℕ → f.Float) → f.Float
  sum zero weights inputs = nought
  sum (suc n) weights inputs = f.plus (sum n weights inputs) (f.times (weights n) (inputs n))

  unfoldable pub norm_factor : ℕ → f.Float → f.Float
  norm_factor taps mu = f.divided mu (f.plus (f.of_int (pos 1)) (f.times mu (f.of_int (pos taps))))

  -- The loop over the weights, in which each is changed once.
  unfoldable pub adapt : ℕ → f.Float → (ℕ → f.Float) → (ℕ → f.Float) → ℕ → f.Float
  adapt taps step weights inputs j =
      if ltb j taps then f.plus (weights j) (f.times step (inputs j)) else weights j

  -- The new state and the output.
  unfoldable pub process_sample : f.Float → NrLms f → NrLms f × f.Float
  unfolding slot store sum norm_factor adapt
  process_sample input p =
      let line = store p.delay_index input p.delay_line in
      let inputs = λ (j : ℕ). line (slot p.taps p.delay_index j) in
      let error = f.minus (inputs (p.taps / 2)) (sum p.taps p.weights inputs) in
      (
        record p {
          weights = adapt p.taps (f.times (norm_factor p.taps p.mu) error) p.weights inputs;
          delay_line = line;
          delay_index = (p.delay_index + 1) % p.taps;
        },
        error,
      )

  -- `static_cast<float>(sample) / 32768.0f`, and back.
  unfoldable pub of_sample : ℤ → f.Float
  of_sample x = f.divided (f.of_int x) (f.of_int (pos 32768))

  unfoldable pub to_sample : f.Float → ℤ
  unfolding clamp
  to_sample x =
      f.to_int16
        (f.times (clamp f x (f.of_int (negsuc 0)) (f.of_int (pos 1))) (f.of_int (pos 32767)))

  unfoldable pub process_all : List ℤ → NrLms f → NrLms f × List ℤ
  unfolding process_sample of_sample to_sample
  process_all [] p = (p, [])
  process_all (x ∷ xs) p =
      let r = process_sample (of_sample x) p in
      let q = process_all xs r.0 in (q.0, to_sample r.1 ∷ q.1)

  -- The new state, and what stands in the buffer behind the call.
  unfoldable pub process : List ℤ → NrLms f → NrLms f × List ℤ
  unfolding process_all
  process samples p = if p.enabled then process_all samples p else (p, samples)
