-- ===== src/Engine/Band.antt =====
-- `setBand` of qk4_engine.cpp: where it tunes.
use ak.Base.{
  ◌≤◌, ◌≡◌, ap, ◌∙◌, true, ◌⊎◌, inl, inr, Option, none, some, List, [], ◌∷◌, arith, Bool-cases,
  Option-cases,
}
use mathlib.Core.Path.{subst}
use ak.Engine.RoundTrip.{if_connected-true}
use ak.Base.Int.{ℤ, pos, eq_ℤ}
use ak.RadioUtils.Bands.{BandInfo, bands, get_band_by_id, find_id, holds, is_freq_in_band, in_found}
use ak.Engine.{Engine, err_invalid_param}
use ak.Engine.Commands.{set_frequency, set_band, center}

-- Each band of a list is not empty.
abbrev Ordered : List BandInfo → Type 0
Ordered [] = Unit
Ordered (b ∷ bs) = (b.lower_hz ≤ b.upper_hz) × Ordered bs

bands-Ordered : Ordered bands
bands-Ordered = ground arith

abbrev NonEmpty : Option BandInfo → Type 0
NonEmpty none = Unit
NonEmpty (some b) = b.lower_hz ≤ b.upper_hz

find_id-NonEmpty : (bs : List BandInfo) (id : ℤ) → Ordered bs → NonEmpty (find_id bs id)
unfolding find_id
find_id-NonEmpty [] id o = tt
find_id-NonEmpty (c ∷ bs) id o = elim (Bool-cases (eq_ℤ (pos c.id) id)) [
  | inl t ↦ rw t (o.0)
  | inr f ↦ rw f (find_id-NonEmpty bs id o.1)
]

holds-center : (b : BandInfo) → b.lower_hz ≤ b.upper_hz → holds b (center b) ≡ true
unfolding center
holds-center b h = ground arith

in_band_center :
    (id : ℤ) (b : BandInfo) → get_band_by_id id ≡ some b → is_freq_in_band (center b) id ≡ true
unfolding is_freq_in_band get_band_by_id in_found
in_band_center id b n =
    ap (λ o. in_found o (center b)) n
    ∙ holds-center b (subst NonEmpty n (find_id-NonEmpty bands id bands-Ordered))

-- With a connection `setBand` of a known band tunes VFO A to a frequency inside of that band, and
-- one of an unknown band returns `QK4_ERR_INVALID_PARAM` and does nothing.
pub set_band_lem :
    (id : ℤ) (e : Engine)
    → e.tcp_connected ≡ true
    → ((freq : ℤ) × (set_band id e ≡ set_frequency (pos 0) freq e)
        × (is_freq_in_band freq id ≡ true))
      ⊎ ((get_band_by_id id ≡ none) × (set_band id e ≡ (err_invalid_param, e)))
unfolding set_band
set_band_lem id e c = elim (Option-cases (get_band_by_id id)) [
  | inl n ↦ inr (n, if_connected-true e _ c ∙ rw n)
  | inr (b, n) ↦ inl (center b, if_connected-true e _ c ∙ rw n, in_band_center id b n)
]
