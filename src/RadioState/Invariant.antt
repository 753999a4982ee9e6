-- ===== src/RadioState/Invariant.antt =====
-- The ranges of the data that radio_state.h documents.
use ak.Base.{not, List, [], ◌∷◌, ◌≡◌, arith}
use ak.Base.Int.{ℤ, pos, ◌≤ℤ◌, clamp_bounds}
use ak.RadioState.{RadioStateData, get_vfo, put_vfo, get_nr, put_nr, initial}
use ak.RadioState.Setters.{
  set_frequency, set_mode, set_smeter, set_tuning_rate, set_sub_on, set_active_vfo, set_ptt,
  set_tune, set_power, set_swr, set_span, set_center, set_ref_level, set_bin_count, set_main_volume,
  set_sub_volume, set_sidetone_pitch, set_cw_speed, set_cw_iambic_mode,
}
use ak.RadioState.Receivers.{
  set_nr_enabled, set_nr_level, set_kpa_state, set_connection_state, set_cat_state,
  set_dx_cluster_state,
}
use ak.RadioState.Op.{
  Op, apply, apply_all, frequency, mode, smeter, tuning_rate, sub_on, active_vfo, ptt, tune, power,
  swr, span, center, ref_level, bin_count, main_volume, sub_volume, sidetone_pitch, nr_enabled,
  nr_level, cw_speed, cw_iambic_mode, kpa_state, connection_state, cat_state, dx_cluster_state,
}

abbrev pub Within : ℤ → ℤ → ℤ → Type 0
Within lo hi v = (lo ≤ℤ v) × (v ≤ℤ hi)

pub record IsValid (s : RadioStateData) : Type 0 where
  pub main_volume : Within (pos 0) (pos 100) s.audio.main_volume
  pub sub_volume : Within (pos 0) (pos 100) s.audio.sub_volume
  pub sidetone : Within (pos 400) (pos 1000) s.audio.sidetone_hz
  pub main_lms : Within (pos 1) (pos 10) s.nr_main.lms_level
  pub main_ssnr : Within (pos 1) (pos 10) s.nr_main.ssnr_level
  pub sub_lms : Within (pos 1) (pos 10) s.nr_sub.lms_level
  pub sub_ssnr : Within (pos 1) (pos 10) s.nr_sub.ssnr_level
  pub cw_speed : Within (pos 5) (pos 60) s.cw.speed_wpm
  pub one_active : s.vfo_b.active ≡ not s.vfo_a.active

pub initial-IsValid : IsValid initial
initial-IsValid = ground arith

pub apply-IsValid : (op : Op) (s : RadioStateData) → IsValid s → IsValid (apply op s).0
unfolding apply set_frequency set_mode set_smeter set_tuning_rate set_sub_on set_active_vfo set_ptt
    set_tune set_power set_swr set_span set_center set_ref_level set_bin_count set_main_volume
    set_sub_volume set_sidetone_pitch set_nr_enabled set_nr_level set_cw_speed set_cw_iambic_mode
    set_kpa_state set_connection_state set_cat_state set_dx_cluster_state get_vfo put_vfo get_nr
    put_nr
apply-IsValid (frequency a b) s w = ground arith
apply-IsValid (mode a b) s w = ground arith
apply-IsValid (smeter a b) s w = ground arith
apply-IsValid (tuning_rate a b) s w = ground arith
apply-IsValid (sub_on a) s w = ground arith
apply-IsValid (active_vfo a) s w = ground arith
apply-IsValid (ptt a) s w = ground arith
apply-IsValid (tune a) s w = ground arith
apply-IsValid (power a) s w = ground arith
apply-IsValid (swr a) s w = ground arith
apply-IsValid (span a) s w = ground arith
apply-IsValid (center a) s w = ground arith
apply-IsValid (ref_level a) s w = ground arith
apply-IsValid (bin_count a) s w = ground arith
apply-IsValid (main_volume a) s w = ground (arith, clamp_bounds a (pos 0) (pos 100))
apply-IsValid (sub_volume a) s w = ground (arith, clamp_bounds a (pos 0) (pos 100))
apply-IsValid (sidetone_pitch a) s w = ground (arith, clamp_bounds a (pos 400) (pos 1000))
apply-IsValid (nr_enabled a b c) s w = ground arith
apply-IsValid (nr_level a b c) s w = ground (arith, clamp_bounds c (pos 1) (pos 10))
apply-IsValid (cw_speed a) s w = ground (arith, clamp_bounds a (pos 5) (pos 60))
apply-IsValid (cw_iambic_mode a) s w = ground arith
apply-IsValid (kpa_state a) s w = ground arith
apply-IsValid (connection_state a b) s w = ground arith
apply-IsValid (cat_state a b) s w = ground arith
apply-IsValid (dx_cluster_state a b) s w = ground arith

-- From data within these ranges, whatever setters run, in whatever order, the volumes stay within
-- 0 and 100, the sidetone within 400 and 1000 Hz, the noise reduction levels within 1 and 10, the
-- keyer's speed within 5 and 60 words per minute, and exactly one VFO is active.
pub apply_all-IsValid : (ops : List Op) (s : RadioStateData) → IsValid s → IsValid (apply_all ops s)
unfolding apply_all
apply_all-IsValid [] s w = w
apply_all-IsValid (op ∷ ops) s w = apply_all-IsValid ops (apply op s).0 (apply-IsValid op s w)
