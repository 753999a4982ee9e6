-- ===== src/DxCluster/Spot.antt =====
-- `DxClusterClient::parseSpot`.
use mathlib.Core.Option
use ak.Base.{
  ℕ, zero, suc, ◌+◌, ◌-◌, ◌%◌, ◌^◌, Bool, false, not, ◌&&◌, Option, none, some, [], ◌∷◌,
  if◌then◌else◌, ltb, leb, ◌==◌, length, take, drop,
}
use ak.Base.Int.{ℤ}
use ak.Base.Doubles.{Doubles, to_hz}
use ak.Base.Text.{Bytes, codes, equal, is_digit, is_space, skip_space}

pub record DxSpotData : Type 0 where
  pub callsign : Bytes
  pub frequency_hz : ℤ
  pub spotter : Bytes
  pub comment : Bytes
  pub timestamp : ℤ

-- `find`: the first position of a byte that is not in front of the given one.
unfoldable pub find : ℕ → ℕ → Bytes → Option ℕ
find c k [] = none
find c zero (x ∷ xs) = if x == c then some 0 else Option.map suc (find c zero xs)
find c (suc k) (x ∷ xs) = Option.map suc (find c k xs)

-- `while (!text.empty() && text.back() == ' ') text.pop_back();`
unfoldable pub put_trimmed : ℕ → Bytes → Bytes
put_trimmed x [] = if x == b' ' then [] else x ∷ []
put_trimmed x (y ∷ ys) = x ∷ y ∷ ys

unfoldable pub trim_end : Bytes → Bytes
unfolding put_trimmed
trim_end [] = []
trim_end (x ∷ xs) = put_trimmed x (trim_end xs)

-- `>>` into a string, and the text behind it.
unfoldable pub span : Bytes → Bytes × Bytes
span [] = ([], [])
span (x ∷ xs) = let r = span xs in if is_space x then ([], x ∷ xs) else (x ∷ r.0, r.1)

unfoldable pub not_empty : Bytes × Bytes → Option (Bytes × Bytes)
not_empty ([], more) = none
not_empty (x ∷ xs, more) = some (x ∷ xs, more)

unfoldable pub word : Bytes → Option (Bytes × Bytes)
unfolding span skip_space not_empty
word text = not_empty (span (skip_space text))

-- `std::getline`.
unfoldable pub getline : Bytes → Bytes
getline [] = []
getline (x ∷ xs) = let rest = getline xs in if x == b'\n' then [] else x ∷ rest

-- `find_first_not_of(' ')` and the `substr` from there; text of blanks alone stays.
unfoldable pub drop_blanks : Bytes → Bytes
drop_blanks [] = []
drop_blanks (x ∷ xs) = let rest = drop_blanks xs in if x == b' ' then rest else x ∷ xs

unfoldable pub or_whole : Bytes → Bytes → Bytes
or_whole text [] = text
or_whole text (x ∷ xs) = x ∷ xs

unfoldable pub trim_start : Bytes → Bytes
unfolding drop_blanks or_whole
trim_start text = or_whole text (drop_blanks text)

unfoldable pub is_time : Bytes → Bool
is_time (a ∷ b ∷ c ∷ d ∷ z ∷ []) = z == b'Z' && is_digit a && is_digit b && is_digit c && is_digit d
is_time _ = false

unfoldable pub drop_time : Bytes → Bytes
unfolding is_time
drop_time text =
    if leb 5 (length text) && is_time (drop (length text - 5) text)
    then take (length text - 5) text
    else text

unfoldable pub comment_of : Bytes → Bytes
unfolding getline trim_start drop_time trim_end
comment_of text = trim_end (drop_time (trim_start (getline text)))

-- The part behind the colon, from the callsign on, and then the whole. `now` is what `std::time`
-- gives.
module _ (d : Doubles) (now : ℤ) where
  unfoldable pub with_word : Bytes → d.Double → Option (Bytes × Bytes) → Option DxSpotData
  unfolding to_hz comment_of
  with_word spotter khz none = none
  with_word spotter khz (some (callsign, more)) = some (record {
    callsign = callsign;
    frequency_hz = to_hz d khz;
    spotter = spotter;
    comment = comment_of more;
    timestamp = now;
  })

  unfoldable pub with_khz : Bytes → Option (d.Double × Bytes) → Option DxSpotData
  unfolding word with_word
  with_khz spotter none = none
  with_khz spotter (some (khz, behind)) = with_word spotter khz (word behind)

  -- With a colon right behind `DX de` the count of the first `substr` is 2 ^ 64 - 1.
  unfoldable pub with_colon : Bytes → Option ℕ → Option DxSpotData
  unfolding trim_end with_khz
  with_colon line none = none
  with_colon line (some colon) =
      with_khz (trim_end (take ((2 ^ 64 + colon - 6) % 2 ^ 64) (drop 6 line)))
        (d.read (drop (suc colon) line))

  unfoldable pub parse_spot : Bytes → Option DxSpotData
  unfolding find with_colon
  parse_spot line =
      if ltb (length line) 26
      then none
      else if not (equal (take 5 line) (codes "DX de"))
      then none
      else with_colon line (find b':' 5 line)
