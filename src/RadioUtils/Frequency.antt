-- ===== src/RadioUtils/Frequency.antt =====
-- `formatFrequency` and `parseFrequency`.
pub mod RoundTrip
use mathlib.Core.Option
use ak.Base.{
  ℕ, zero, suc, ◌+◌, ◌-◌, ◌*◌, ◌%◌, ◌^◌, ◌≤◌, ◌<◌, ◌≡◌, refl, ap, sym, ◌∙◌, Bool, true, false, not,
  ◌&&◌, ◌||◌, Option, none, some, List, [], ◌∷◌, ◌++◌, ltb, leb, ◌==◌, if◌then◌else◌, length, take,
  drop, replicate, arith, inl, inr, Bool-cases, Option-cases,
}
use ak.Base.Int.{ℤ, pos, negsuc}
use ak.Base.Text.{Bytes, is_digit, padded, scan, stoll}
use ak.Base.Decimal.{DigitFirst, padded-DigitFirst, scan-padded, scan-zeros, stoll-DigitFirst}

-- A period behind each digit that a positive multiple of three digits follows.
unfoldable pub group : Bytes → Bytes
group [] = []
group (c ∷ cs) =
    let rest = group cs in
    if ltb 0 (length cs) && length cs % 3 == 0 then c ∷ b'.' ∷ rest else c ∷ rest

-- The position of the first byte that passes a test.
unfoldable pub find_if : (ℕ → Bool) → Bytes → Option ℕ
find_if p [] = none
find_if p (x ∷ xs) = if p x then some 0 else Option.map suc (find_if p xs)

abbrev pub is_dot : ℕ → Bool
is_dot c = c == b'.'

abbrev pub not_zero : ℕ → Bool
not_zero c = not (c == b'0')

-- From which position on the text is kept. The text does not begin with a period, so that 1 can be
-- subtracted.
unfoldable pub kept_from : ℕ → Option ℕ → ℕ
kept_from dot none = dot - 1
kept_from dot (some z) = if ltb z dot then z else dot - 1

unfoldable pub without_zeros : Bytes → Option ℕ → Bytes
unfolding find_if kept_from
without_zeros text none = text
without_zeros text (some dot) = drop (kept_from dot (find_if not_zero text)) text

unfoldable pub remove_zeros : Bytes → Bytes
unfolding find_if without_zeros
remove_zeros text = without_zeros text (find_if is_dot text)

unfoldable pub format_frequency : ℤ → Bytes
unfolding group remove_zeros
format_frequency (pos n) = remove_zeros (group (padded 7 n))
format_frequency (negsuc n) = remove_zeros (group (padded 7 0))

-- The text without its periods, unless another byte stands in it.
unfoldable pub clean : Bytes → Option Bytes
clean [] = some []
clean (c ∷ cs) =
    let rest = clean cs in
    if is_digit c then Option.map (λ t. c ∷ t) rest else if c == b'.' then rest else none

unfoldable pub or_minus_one : Option ℤ → ℤ
or_minus_one none = negsuc 0
or_minus_one (some z) = z

unfoldable pub parse_clean : Option Bytes → ℤ
unfolding or_minus_one
parse_clean none = negsuc 0
parse_clean (some []) = negsuc 0
parse_clean (some (c ∷ cs)) = or_minus_one (stoll (c ∷ cs))

unfoldable pub parse_frequency : Bytes → ℤ
unfolding clean parse_clean
parse_frequency text = parse_clean (clean text)
