-- ===== src/RadioUtils/Bands.antt =====
-- The amateur bands: `getBandById`, `freqToBand`, `isFreqInBand`.
use Prim.Native.String.{String}
use mathlib.Core.Option.{Option}
use ak.Base.{
  ℕ, ◌+◌, ◌≤◌, ◌≡◌, ◌↔◌, refl, Bool, true, false, ◌&&◌, List, [], ◌∷◌, none, some, arith, ◌==◌,
  if◌then◌else◌, inl, inr, Bool-cases,
}
use ak.Base.Int.{ℤ, pos, negsuc, eq_ℤ, leb_ℤ}

pub record BandInfo : Type 0 where
  pub id : ℕ
  pub name : String
  pub lower_hz : ℕ
  pub upper_hz : ℕ

abbrev band : ℕ → String → ℕ → ℕ → BandInfo
band id name lower upper = record { id = id; name = name; lower_hz = lower; upper_hz = upper }

-- `s_bands`
abbrev pub bands : List BandInfo
bands =
    band 0 "160m" 1800000 2000000
    ∷ band 1 "80m" 3500000 4000000
    ∷ band 2 "60m" 5330500 5403500
    ∷ band 3 "40m" 7000000 7300000
    ∷ band 4 "30m" 10100000 10150000
    ∷ band 5 "20m" 14000000 14350000
    ∷ band 6 "17m" 18068000 18168000
    ∷ band 7 "15m" 21000000 21450000
    ∷ band 8 "12m" 24890000 24990000
    ∷ band 9 "10m" 28000000 29700000
    ∷ band 10 "6m" 50000000 54000000
    ∷ []

abbrev pub holds : BandInfo → ℤ → Bool
holds b freq = leb_ℤ (pos b.lower_hz) freq && leb_ℤ freq (pos b.upper_hz)

unfoldable pub find_id : List BandInfo → ℤ → Option BandInfo
find_id [] id = none
find_id (b ∷ bs) id = if eq_ℤ (pos b.id) id then some b else find_id bs id

unfoldable pub find_freq : List BandInfo → ℤ → ℤ
find_freq [] freq = negsuc 0
find_freq (b ∷ bs) freq = if holds b freq then pos b.id else find_freq bs freq

unfoldable pub get_band_by_id : ℤ → Option BandInfo
unfolding find_id
get_band_by_id id = find_id bands id

unfoldable pub freq_to_band : ℤ → ℤ
unfolding find_freq
freq_to_band freq = find_freq bands freq

unfoldable pub in_found : Option BandInfo → ℤ → Bool
in_found none freq = false
in_found (some b) freq = holds b freq

unfoldable pub is_freq_in_band : ℤ → ℤ → Bool
unfolding in_found
is_freq_in_band freq id = in_found (get_band_by_id id) freq

-- The bands stand in ascending order, and do not overlap.
abbrev Ascending : ℕ → ℕ → List BandInfo → Type 0
Ascending id edge [] = Unit
Ascending id edge (b ∷ bs) =
    (id ≤ b.id)
    × (edge ≤ b.lower_hz)
    × (b.lower_hz ≤ b.upper_hz)
    × Ascending (b.id + 1) (b.upper_hz + 1) bs

in_band : List BandInfo → ℕ → ℕ → Bool
in_band bs id f = in_found (find_id bs (pos id)) (pos f)

in_band-cons :
    (b : BandInfo) (bs : List BandInfo) (id f : ℕ)
    → in_band (b ∷ bs) id f ≡ (if b.id == id then holds b (pos f) else in_band bs id f)
unfolding in_band find_id in_found
in_band-cons b bs id f = elim (Bool-cases (b.id == id)) [ inl e ↦ rw e | inr e ↦ rw e ]

in_band-nil : (id f : ℕ) → in_band [] id f ≡ false
unfolding in_band find_id in_found
in_band-nil id f = refl

-- Behind an edge there is no band for an id or a frequency in front of it.
in_band_behind :
    (i e : ℕ) (bs : List BandInfo) (id f : ℕ)
    → Ascending i e bs
    → in_band bs id f ≡ true
    → (i ≤ id) × (e ≤ f)
in_band_behind i e [] id f a h = ground (arith, in_band-nil id f)
in_band_behind i e (b ∷ bs) id f a h =
    ground (arith, in_band-cons b bs id f, in_band_behind (b.id + 1) (b.upper_hz + 1) bs id f)

find_freq_behind :
    (i e : ℕ) (bs : List BandInfo) (id f : ℕ)
    → Ascending i e bs
    → find_freq bs (pos f) ≡ pos id
    → i ≤ id
unfolding find_freq
find_freq_behind i e [] id f a h = ground arith
find_freq_behind i e (b ∷ bs) id f a h =
    ground (arith, find_freq_behind (b.id + 1) (b.upper_hz + 1) bs id f)

find_freq-in_band :
    (i e : ℕ) (bs : List BandInfo) (id f : ℕ)
    → Ascending i e bs
    → (find_freq bs (pos f) ≡ pos id) ↔ (in_band bs id f ≡ true)
unfolding find_freq
find_freq-in_band i e [] id f a = ground (arith, in_band-nil id f)
find_freq-in_band i e (b ∷ bs) id f a = ground (
  arith,
  in_band-cons b bs id f,
  find_freq-in_band (b.id + 1) (b.upper_hz + 1) bs id f,
  find_freq_behind (b.id + 1) (b.upper_hz + 1) bs id f,
  in_band_behind (b.id + 1) (b.upper_hz + 1) bs id f,
)

bands-Ascending : Ascending 0 0 bands
bands-Ascending = omega arith

find_freq-negsuc : (bs : List BandInfo) (n : ℕ) → find_freq bs (negsuc n) ≡ negsuc 0
unfolding find_freq
find_freq-negsuc [] n = refl
find_freq-negsuc (b ∷ bs) n = ground (arith, find_freq-negsuc bs n)

in_found-negsuc : (o : Option BandInfo) (n : ℕ) → in_found o (negsuc n) ≡ false
unfolding in_found
in_found-negsuc none n = refl
in_found-negsuc (some b) n = ground arith

-- `freqToBand` names a band exactly if `isFreqInBand` says that the frequency lies in it: the table
-- has no overlap that would make the first match another band than the one asked for.
pub freq_to_band-is_freq_in_band :
    (freq : ℤ) (id : ℕ) → (freq_to_band freq ≡ pos id) ↔ (is_freq_in_band freq (pos id) ≡ true)
unfolding freq_to_band is_freq_in_band get_band_by_id in_band
freq_to_band-is_freq_in_band (pos f) id = find_freq-in_band 0 0 bands id f bands-Ascending
freq_to_band-is_freq_in_band (negsuc n) id =
    ground (arith, find_freq-negsuc bands n, in_found-negsuc (find_id bands (pos id)) n)
