-- ===== src/RadioUtils/Tests.antt =====
-- The radio's tables at concrete inputs.
use ak.Base.{◌≡◌, refl, arith}
use ak.Base.Int.{pos}
use ak.Base.Text.{codes, padded, decimal}
use ak.RadioUtils.Frequency.{
  format_frequency, group, remove_zeros, without_zeros, find_if, kept_from, parse_frequency,
}
use ak.RadioUtils.Frequency.RoundTrip.{parse_frequency-format_frequency, shown}

format_20m : format_frequency (pos 14225000) ≡ codes "14.225.000"
unfolding format_frequency group remove_zeros without_zeros find_if kept_from padded decimal
format_20m = refl

format_low : format_frequency (pos 7040) ≡ codes "0.007.040"
unfolding format_frequency group remove_zeros without_zeros find_if kept_from padded decimal
format_low = refl

parse_frequency-format_frequency_example : parse_frequency (format_frequency (pos 7040)) ≡ pos 7040
unfolding shown
parse_frequency-format_frequency_example =
    parse_frequency-format_frequency (pos 7040) (ground arith)
