-- ===== src/Base/Doubles.antt =====
-- The type `double` of the C++ language and library, with the operations that the code uses, as an
-- argument of the definitions: it is not the repository's code.
use ak.Base.{Option}
use ak.Base.Int.{ℤ}
use ak.Base.Text.{Bytes}

pub record Doubles : Type 1 where
  pub Double : Type 0
  -- `>>` from a stream, with the text that it leaves, and `std::stod`, with `none` for its exceptions
  pub read : Bytes → Option (Double × Bytes)
  pub stod : Bytes → Option Double
  pub of_int : ℤ → Double
  pub times : Double → Double → Double
  pub plus : Double → Double → Double
  pub divided : Double → Double → Double
  -- the literals `1000.0` and `0.5`
  pub thousand : Double
  pub half : Double
  -- the conversions to `int64_t` and `int`
  pub to_int64 : Double → ℤ
  pub to_int : Double → ℤ

-- `static_cast<int64_t>(khz * 1000.0 + 0.5)`
unfoldable pub to_hz : (d : Doubles) → d.Double → ℤ
to_hz d khz = d.to_int64 (d.plus (d.times khz d.thousand) d.half)
