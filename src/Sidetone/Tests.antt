-- ===== src/Sidetone/Tests.antt =====
-- The tone at concrete inputs, in whole hundredths, where a wave is always at its top.
use ak.Base.{ℕ, ◌+◌, ◌-◌, ◌*◌, ◌/◌, ◌≡◌, refl, [], ◌∷◌, ltb, leb, arith}
use ak.Base.Int.{ℤ, pos, negsuc}
use ak.Sidetone.{
  Reals, SidetoneGenerator, new, set_pitch, key_down, generate, clamp_pitch, samples, sample, sound,
  ramp, update_ramp_rates, rate,
}
use ak.Sidetone.Generate.{Laws, InRange, generate-InRange}

hundredths : ℤ → ℕ
hundredths (pos n) = n * 100
hundredths (negsuc n) = 0

abbrev coarse : Reals
coarse = record {
  Float = ℕ;
  plus = λ x y. x + y;
  minus = λ x y. x - y;
  times = λ x y. x * y / 100;
  divided = λ x y. x * 100 / y;
  less = ltb;
  of_int = hundredths;
  half = 50;
  Double = ℕ;
  widen = λ x. x;
  of_int_double = hundredths;
  plus_double = λ x y. x + y;
  minus_double = λ x y. x - y;
  times_double = λ x y. x * y / 100;
  divided_double = λ x y. x * 100 / y;
  at_least = λ x y. leb y x;
  sin = λ x. 100;
  pi = 314;
  to_int16 = λ x. pos (x / 100);
}

coarse-Laws : Laws coarse
unfolding hundredths
coarse-Laws = record {
  nought_order = refl;
  one_order = refl;
  one_nought = refl;
  up = λ x h. ground arith;
  down = λ x h. ground arith;
}

abbrev keyed : SidetoneGenerator coarse
keyed = key_down coarse (set_pitch coarse (pos 9000) (new coarse))

pitch_limits : clamp_pitch (negsuc 7) ≡ 400
unfolding clamp_pitch
pitch_limits = refl

silent : (generate coarse 3 (new coarse)).1 ≡ pos 0 ∷ pos 0 ∷ pos 0 ∷ []
unfolding generate samples sample sound ramp new hundredths rate update_ramp_rates
silent = refl

keyed-InRange : InRange coarse keyed
unfolding key_down set_pitch new update_ramp_rates hundredths
keyed-InRange = record { not_negative = refl; not_above = refl }

generate-InRange_example : InRange coarse (generate coarse 200 keyed).0
generate-InRange_example = generate-InRange coarse coarse-Laws 200 keyed keyed-InRange
