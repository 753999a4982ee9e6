-- ===== src/RadioUtils/Conversions.antt =====
-- The functions of radio_utils.cpp that compute in `double`: `parseFrequencyKhz`, `pixelToFreq` and
-- `freqToPixel`.
use mathlib.Core.Option
use ak.Base.{
  ℕ, suc, ◌≡◌, refl, ap, ◌∙◌, Bool, true, false, not, ◌&&◌, ◌||◌, Option, none, some, [], ◌∷◌, ltb,
  leb, ◌==◌, if◌then◌else◌, arith,
}
use ak.Base.Int.{ℤ, pos, negsuc, ◌+ℤ◌, ◌-ℤ◌}
use ak.Base.Doubles.{Doubles, to_hz}
use ak.Base.Text.{Bytes, is_digit}
use ak.RadioUtils.Center.{half}

-- The loop over the text, given whether a period was seen.
unfoldable pub clean_khz : Bool → Bytes → Option Bytes
clean_khz has_dot [] = some []
clean_khz has_dot (c ∷ cs) =
    let same = clean_khz has_dot cs in
    let dotted = clean_khz true cs in
    if is_digit c
    then Option.map (λ t. c ∷ t) same
    else if c == b'.' && not has_dot
    then Option.map (λ t. c ∷ t) dotted
    else none

unfoldable pub khz_to_hz : (d : Doubles) → Option d.Double → ℤ
khz_to_hz d none = negsuc 0
khz_to_hz d (some khz) = to_hz d khz

unfoldable pub of_clean : Doubles → Option Bytes → ℤ
unfolding khz_to_hz
of_clean d none = negsuc 0
of_clean d (some []) = negsuc 0
of_clean d (some (c ∷ cs)) = khz_to_hz d (d.stod (c ∷ cs))

unfoldable pub parse_frequency_khz : Doubles → Bytes → ℤ
unfolding clean_khz of_clean
parse_frequency_khz d text = of_clean d (clean_khz false text)

unfoldable pub is_positive : ℤ → Bool
is_positive (pos n) = ltb 0 n
is_positive (negsuc n) = false

unfoldable pub pixel_to_freq : Doubles → ℤ → ℤ → ℤ → ℤ → ℤ
unfolding is_positive
pixel_to_freq d x_pixel width center span =
    let ratio = d.divided (d.of_int x_pixel) (d.of_int width) in
    if is_positive width
    then (center -ℤ half span) +ℤ d.to_int64 (d.times ratio (d.of_int span))
    else center

unfoldable pub freq_to_pixel : Doubles → ℤ → ℤ → ℤ → ℤ → ℤ
unfolding is_positive
freq_to_pixel d freq width center span =
    let offset = d.of_int (freq -ℤ (center -ℤ half span)) in
    if is_positive span
    then d.to_int (d.times (d.divided offset (d.of_int span)) (d.of_int width))
    else half width

-- The text of a number as it is entered: digits, and one period at most.
unfoldable pub dots : Bytes → ℕ
dots [] = 0
dots (c ∷ cs) = let rest = dots cs in if c == b'.' then suc rest else rest

unfoldable pub digits_or_dots : Bytes → Bool
digits_or_dots [] = true
digits_or_dots (c ∷ cs) = (is_digit c || c == b'.') && digits_or_dots cs

clean_khz_lem :
    (has_dot : Bool) (t : Bytes)
    → clean_khz has_dot t
      ≡ (if digits_or_dots t && leb (dots t) (if has_dot then 0 else 1) then some t else none)
unfolding clean_khz digits_or_dots dots
clean_khz_lem true [] = refl
clean_khz_lem false [] = refl
clean_khz_lem true (c ∷ cs) = ground (arith, clean_khz_lem true cs)
clean_khz_lem false (c ∷ cs) = ground (arith, clean_khz_lem true cs, clean_khz_lem false cs)

of_clean-if :
    (d : Doubles) (c : ℕ) (cs : Bytes) (b : Bool)
    → of_clean d (if b then some (c ∷ cs) else none)
      ≡ (if b then khz_to_hz d (d.stod (c ∷ cs)) else negsuc 0)
unfolding of_clean
of_clean-if d c cs true = refl
of_clean-if d c cs false = refl

-- The text of a frequency in kHz is refused unless it is digits with one period at most, and not
-- empty; else the result is what `std::stod` reads from the text as it is, in Hz, or -1.
pub parse_frequency_khz_lem :
    (d : Doubles) (c : ℕ) (cs : Bytes)
    → (parse_frequency_khz d [] ≡ negsuc 0)
      × (parse_frequency_khz d (c ∷ cs) ≡ (
          if digits_or_dots (c ∷ cs) && leb (dots (c ∷ cs)) 1
          then khz_to_hz d (d.stod (c ∷ cs))
          else negsuc 0))
unfolding parse_frequency_khz of_clean
parse_frequency_khz_lem d c cs = (
  unfold clean_khz in refl,
  ap (of_clean d) (clean_khz_lem false (c ∷ cs))
      ∙ of_clean-if d c cs (digits_or_dots (c ∷ cs) && leb (dots (c ∷ cs)) 1),
)
