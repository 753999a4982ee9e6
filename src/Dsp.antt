-- ===== src/Dsp.antt =====
-- core/src/dsp: signal processing. The type `float`, with the operations and the constants that the
-- code uses, is an argument: it is not the repository's code.
pub mod Spectrum
pub mod Smoothing
pub mod Lms
pub mod Ssnr
mod Tests
use ak.Base.{Bool, if◌then◌else◌}
use ak.Base.Int.{ℤ}

pub record Floats : Type 1 where
  pub Float : Type 0
  pub plus : Float → Float → Float
  pub minus : Float → Float → Float
  pub times : Float → Float → Float
  pub divided : Float → Float → Float
  pub less : Float → Float → Bool
  pub of_int : ℤ → Float
  -- the conversion to `int16_t`
  pub to_int16 : Float → ℤ
  -- the literals `0.3f`, `0.005f` and `0.003f`
  pub three_tenths : Float
  pub five_thousandths : Float
  pub three_thousandths : Float

-- `std::clamp`
unfoldable pub clamp : (f : Floats) → f.Float → f.Float → f.Float → f.Float
clamp f x low high = if f.less x low then low else if f.less high x then high else x
