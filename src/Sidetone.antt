-- ===== src/Sidetone.antt =====
-- core/src/audio/sidetone_generator.{h,cpp}: the tone of the Morse key. The types `float` and
-- `double`, with the operations that the code uses, are an argument.
pub mod Generate
mod Tests
use ak.Base.{ℕ, zero, suc, Bool, true, false, List, [], ◌∷◌, ltb, if◌then◌else◌}
use ak.Base.Int.{ℤ, pos, negsuc}

pub record Reals : Type 1 where
  pub Float : Type 0
  pub plus : Float → Float → Float
  pub minus : Float → Float → Float
  pub times : Float → Float → Float
  pub divided : Float → Float → Float
  pub less : Float → Float → Bool
  pub of_int : ℤ → Float
  -- the literal `0.5f`
  pub half : Float
  pub Double : Type 0
  pub widen : Float → Double
  pub of_int_double : ℤ → Double
  pub plus_double : Double → Double → Double
  pub minus_double : Double → Double → Double
  pub times_double : Double → Double → Double
  pub divided_double : Double → Double → Double
  -- `>=`
  pub at_least : Double → Double → Bool
  pub sin : Double → Double
  -- `M_PI`
  pub pi : Double
  -- the conversion to `int16_t`
  pub to_int16 : Double → ℤ

-- `std::clamp(hz, 400, 1000)`
unfoldable pub clamp_pitch : ℤ → ℕ
clamp_pitch (pos n) = if ltb n 400 then 400 else if ltb 1000 n then 1000 else n
clamp_pitch (negsuc n) = 400

pub record SidetoneGenerator (r : Reals) : Type 0 where
  pub pitch_hz : ℕ
  pub volume : r.Float
  pub active : Bool
  pub phase : r.Double
  pub envelope : r.Float
  pub ramp_up_rate : r.Float
  pub ramp_down_rate : r.Float

module _ (r : Reals) where
  abbrev pub nought : r.Float
  nought = r.of_int (pos 0)

  abbrev pub one : r.Float
  one = r.of_int (pos 1)

  -- `1.0f / ((ms / 1000.0f) * OUTPUT_SAMPLE_RATE)`
  unfoldable pub rate : ℕ → r.Float
  rate ms =
      r.divided one
        (r.times (r.divided (r.of_int (pos ms)) (r.of_int (pos 1000))) (r.of_int (pos 48000)))

  unfoldable pub update_ramp_rates : SidetoneGenerator r → SidetoneGenerator r
  unfolding rate
  update_ramp_rates g = record g { ramp_up_rate = rate 2; ramp_down_rate = rate 3 }

  unfoldable pub new : SidetoneGenerator r
  unfolding update_ramp_rates
  new = update_ramp_rates (record {
    pitch_hz = 600;
    volume = r.half;
    active = false;
    phase = r.of_int_double (pos 0);
    envelope = nought;
    ramp_up_rate = nought;
    ramp_down_rate = nought;
  })

  unfoldable pub set_pitch : ℤ → SidetoneGenerator r → SidetoneGenerator r
  unfolding clamp_pitch
  set_pitch hz g = record g { pitch_hz = clamp_pitch hz }

  unfoldable pub set_volume : r.Float → SidetoneGenerator r → SidetoneGenerator r
  set_volume x g = record g {
    volume = if r.less x nought then nought else if r.less one x then one else x;
  }

  unfoldable pub key_down : SidetoneGenerator r → SidetoneGenerator r
  key_down g = record g { active = true }

  unfoldable pub key_up : SidetoneGenerator r → SidetoneGenerator r
  key_up g = record g { active = false }

  -- `Update envelope with ramp`
  unfoldable pub ramp : SidetoneGenerator r → r.Float
  ramp g =
      let up = r.plus g.envelope g.ramp_up_rate in
      let down = r.minus g.envelope g.ramp_down_rate in
      if g.active
      then (if r.less one up then one else up)
      else (if r.less down nought then nought else down)

  abbrev pub two_pi : r.Double
  two_pi = r.times_double (r.of_int_double (pos 2)) r.pi

  unfoldable pub phase_increment : ℕ → r.Double
  phase_increment pitch_hz =
      r.divided_double (r.times_double two_pi (r.of_int_double (pos pitch_hz)))
        (r.of_int_double (pos 48000))

  -- The rest of a round of the loop, with a new envelope.
  unfoldable pub sound : SidetoneGenerator r → SidetoneGenerator r × ℤ
  unfolding phase_increment
  sound g =
      let sample =
        r.times_double (r.times_double (r.sin g.phase) (r.widen g.envelope)) (r.widen g.volume) in
      let next = r.plus_double g.phase (phase_increment g.pitch_hz) in
      if r.less nought g.envelope
      then (
        record g { phase = if r.at_least next two_pi then r.minus_double next two_pi else next },
        r.to_int16 (r.times_double sample (r.of_int_double (pos 32000))),
      )
      else (record g { phase = r.of_int_double (pos 0) }, pos 0)

  unfoldable pub sample : SidetoneGenerator r → SidetoneGenerator r × ℤ
  unfolding ramp sound
  sample g = sound (record g { envelope = ramp g })

  unfoldable pub samples : ℕ → SidetoneGenerator r → SidetoneGenerator r × List ℤ
  unfolding sample
  samples zero g = (g, [])
  samples (suc n) g = let s = sample g in let t = samples n s.0 in (t.0, s.1 ∷ t.1)

  -- The key, the pitch and the volume are read once, at the beginning.
  unfoldable pub generate : ℕ → SidetoneGenerator r → SidetoneGenerator r × List ℤ
  unfolding update_ramp_rates samples
  generate frames g = samples frames (update_ramp_rates g)
