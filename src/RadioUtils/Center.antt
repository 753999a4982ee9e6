-- ===== src/RadioUtils/Center.antt =====
-- `clampCenter` of radio_utils.cpp.
use ak.Base.{suc, ◌/◌, ◌≡◌, arith, if◌then◌else◌}
use ak.Base.Int.{ℤ, pos, negsuc, ◌+ℤ◌, ◌-ℤ◌, ◌≤ℤ◌, ltb_ℤ, int_laws, sub_ℕ}

-- `x / 2`, which rounds towards zero.
unfoldable pub half : ℤ → ℤ
half (pos n) = pos (n / 2)
half (negsuc n) = sub_ℕ 0 (suc n / 2)

-- The choice between the bounds, and the middle of a band that is too narrow.
unfoldable pub pick : ℤ → ℤ → ℤ → ℤ → ℤ
pick center min_center max_center middle =
    if ltb_ℤ max_center min_center
    then middle
    else if ltb_ℤ center min_center
    then min_center
    else if ltb_ℤ max_center center
    then max_center
    else center

unfoldable pub clamp_center : ℤ → ℤ → ℤ → ℤ → ℤ
clamp_center center span band_lower band_upper =
    let half_span = half span in
    pick center (band_lower +ℤ half_span) (band_upper -ℤ half_span)
      (half (band_lower +ℤ band_upper))

pick_bounds :
    (c lo hi m : ℤ)
    → lo ≤ℤ hi
    → (lo ≤ℤ pick c lo hi m) × (pick c lo hi m ≤ℤ hi) × (lo ≤ℤ c → c ≤ℤ hi → pick c lo hi m ≡ c)
unfolding pick
pick_bounds c lo hi m h = ground arith

-- If the band is at least as wide as the span, both ends of the display lie in the band, and a
-- centre for which they already do is kept.
pub clamp_center_lem :
    (center span band_lower band_upper : ℤ)
    → (band_lower +ℤ half span) ≤ℤ (band_upper -ℤ half span)
    → let c = clamp_center center span band_lower band_upper in
      (band_lower ≤ℤ (c -ℤ half span))
      × ((c +ℤ half span) ≤ℤ band_upper)
      × ((band_lower +ℤ half span) ≤ℤ center → center ≤ℤ (band_upper -ℤ half span) → c ≡ center)
unfolding clamp_center
clamp_center_lem c s l u h =
    let (a, b, e) = pick_bounds c (l +ℤ half s) (u -ℤ half s) (half (l +ℤ u)) h in
    (omega int_laws, omega int_laws, e)
