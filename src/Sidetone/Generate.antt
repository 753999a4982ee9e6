-- ===== src/Sidetone/Generate.antt =====
-- The range of the envelope of the tone.
use mathlib.Core.Path.{subst}
use ak.Base.{
  ℕ, zero, suc, ◌≡◌, refl, sym, ap, ◌∙◌, false, arith, Bool-cases, inl, inr, if◌then◌else◌,
}
use ak.Sidetone.{
  Reals, SidetoneGenerator, nought, one, rate, update_ramp_rates, ramp, sound, sample, samples,
  generate,
}

module _ (r : Reals) where
  -- The ramp rates are those that every call sets.
  record HasRates (g : SidetoneGenerator r) : Type 0 where
    up : g.ramp_up_rate ≡ rate r 2
    down : g.ramp_down_rate ≡ rate r 3

  update-HasRates : (g : SidetoneGenerator r) → HasRates (update_ramp_rates r g)
  unfolding update_ramp_rates
  update-HasRates g = record { up = refl; down = refl }

  record Kept (g h : SidetoneGenerator r) : Type 0 where
    envelope : h.envelope ≡ g.envelope
    up : h.ramp_up_rate ≡ g.ramp_up_rate
    down : h.ramp_down_rate ≡ g.ramp_down_rate

  sound-Kept : (g : SidetoneGenerator r) → Kept g (sound r g).0
  unfolding sound
  sound-Kept g = elim (Bool-cases (r.less (nought r) g.envelope)) [
    | inl t ↦ record { envelope = ground arith; up = ground arith; down = ground arith }
    | inr t ↦ record { envelope = ground arith; up = ground arith; down = ground arith }
  ]

  sample-HasRates : (g : SidetoneGenerator r) → HasRates g → HasRates (sample r g).0
  unfolding sample
  sample-HasRates g h =
      let k = sound-Kept (record g { envelope = ramp r g }) in
      record { up = k.up ∙ h.up; down = k.down ∙ h.down }

  samples-HasRates : (n : ℕ) (g : SidetoneGenerator r) → HasRates g → HasRates (samples r n g).0
  unfolding samples
  samples-HasRates zero g h = h
  samples-HasRates (suc n) g h = samples-HasRates n (sample r g).0 (sample-HasRates g h)

  -- What the envelope needs of the type `float`: 0 and 1 are not less than themselves, nor 1 less
  -- than 0; to add a rate to what is not negative, or take one from what is not above 1, stays so.
  pub record Laws : Type 0 where
    pub nought_order : r.less (nought r) (nought r) ≡ false
    pub one_order : r.less (one r) (one r) ≡ false
    pub one_nought : r.less (one r) (nought r) ≡ false
    pub up :
        (x : r.Float)
        → r.less x (nought r) ≡ false
        → r.less (r.plus x (rate r 2)) (nought r) ≡ false
    pub down :
        (x : r.Float) → r.less (one r) x ≡ false → r.less (one r) (r.minus x (rate r 3)) ≡ false

  pub record InRange (g : SidetoneGenerator r) : Type 0 where
    pub not_negative : r.less g.envelope (nought r) ≡ false
    pub not_above : r.less (one r) g.envelope ≡ false

  module _ (laws : Laws) where
    clamp_above :
        (x : r.Float)
        → r.less x (nought r) ≡ false
        → let y = if r.less (one r) x then one r else x in
          (r.less y (nought r) ≡ false) × (r.less (one r) y ≡ false)
    clamp_above x h = elim (Bool-cases (r.less (one r) x)) [
      | inl t ↦ rw t (laws.one_nought, laws.one_order)
      | inr t ↦ rw t (h, t)
    ]

    clamp_below :
        (x : r.Float)
        → r.less (one r) x ≡ false
        → let y = if r.less x (nought r) then nought r else x in
          (r.less y (nought r) ≡ false) × (r.less (one r) y ≡ false)
    clamp_below x h = elim (Bool-cases (r.less x (nought r))) [
      | inl t ↦ rw t (laws.nought_order, laws.one_nought)
      | inr t ↦ rw t (t, h)
    ]

    abbrev Range : r.Float → Type 0
    Range x = (r.less x (nought r) ≡ false) × (r.less (one r) x ≡ false)

    ramp-Range : (g : SidetoneGenerator r) → HasRates g → InRange g → Range (ramp r g)
    unfolding ramp
    ramp-Range g h i =
        let x = r.plus g.envelope g.ramp_up_rate in
        let y = r.minus g.envelope g.ramp_down_rate in
        let above = if r.less (one r) x then one r else x in
        let below = if r.less y (nought r) then nought r else y in
        elim (Bool-cases g.active) [
          | inl t ↦ subst Range (sym (ap (λ b. if b then above else below) t)) (
              clamp_above x (
                ap (λ u. r.less (r.plus g.envelope u) (nought r)) h.up
                ∙ laws.up g.envelope i.not_negative))
          | inr t ↦ subst Range (sym (ap (λ b. if b then above else below) t)) (
              clamp_below y (
                ap (λ d. r.less (one r) (r.minus g.envelope d)) h.down
                ∙ laws.down g.envelope i.not_above))
        ]

    sample-InRange : (g : SidetoneGenerator r) → HasRates g → InRange g → InRange (sample r g).0
    unfolding sample
    sample-InRange g h i =
        let k = sound-Kept (record g { envelope = ramp r g }) in
        let range = subst Range (sym k.envelope) (ramp-Range g h i) in
        record { not_negative = range.0; not_above = range.1 }

    samples-InRange :
        (n : ℕ) (g : SidetoneGenerator r) → HasRates g → InRange g → InRange (samples r n g).0
    unfolding samples
    samples-InRange zero g h i = i
    samples-InRange (suc n) g h i =
        samples-InRange n (sample r g).0 (sample-HasRates g h) (sample-InRange g h i)

    -- For a type `float` in which 0 and 1 are not less than themselves nor 1 less than 0, what is
    -- not negative stays so when the rate of the attack is added, and what is not above 1 stays so
    -- when the rate of the release is taken away: an envelope that is neither negative nor above 1
    -- stays so, behind any number of samples, with the key up or down.
    pub generate-InRange :
        (frames : ℕ) (g : SidetoneGenerator r) → InRange g → InRange (generate r frames g).0
    unfolding generate update_ramp_rates
    generate-InRange frames g i =
        samples-InRange frames (update_ramp_rates r g) (update-HasRates g)
          (record { not_negative = i.not_negative; not_above = i.not_above })
