-- ===== src/RadioState/Op.antt =====
-- A call of any setter as a value, so that a law of all of them is one statement.
use ak.Base.{Bool, true, false, List, [], ◌∷◌}
use ak.Base.Int.{ℤ}
use ak.RadioState.{RadioStateData, KpaState, Change}
use ak.RadioState.Setters.{
  set_frequency, set_mode, set_smeter, set_tuning_rate, set_sub_on, set_active_vfo, set_ptt,
  set_tune, set_power, set_swr, set_span, set_center, set_ref_level, set_bin_count, set_main_volume,
  set_sub_volume, set_sidetone_pitch, set_cw_speed, set_cw_iambic_mode,
}
use ak.RadioState.Receivers.{
  set_nr_enabled, set_nr_level, set_kpa_state, set_connection_state, set_cat_state,
  set_dx_cluster_state,
}

pub data Op : Type 0 where
  frequency : ℤ → ℤ → Op
  mode : ℤ → ℤ → Op
  smeter : ℤ → ℤ → Op
  tuning_rate : ℤ → ℤ → Op
  sub_on : Bool → Op
  active_vfo : ℤ → Op
  ptt : Bool → Op
  tune : Bool → Op
  power : ℤ → Op
  swr : ℤ → Op
  span : ℤ → Op
  center : ℤ → Op
  ref_level : ℤ → Op
  bin_count : ℤ → Op
  main_volume : ℤ → Op
  sub_volume : ℤ → Op
  sidetone_pitch : ℤ → Op
  nr_enabled : ℤ → ℤ → Bool → Op
  nr_level : ℤ → ℤ → ℤ → Op
  cw_speed : ℤ → Op
  cw_iambic_mode : ℤ → Op
  kpa_state : KpaState → Op
  connection_state : ℤ → ℤ → Op
  cat_state : Bool → ℤ → Op
  dx_cluster_state : Bool → ℤ → Op

-- The setter's effect: the new data and the keys notified.
unfoldable pub apply : Op → RadioStateData → Change
apply (frequency a b) s = set_frequency a b s
apply (mode a b) s = set_mode a b s
apply (smeter a b) s = set_smeter a b s
apply (tuning_rate a b) s = set_tuning_rate a b s
apply (sub_on a) s = set_sub_on a s
apply (active_vfo a) s = set_active_vfo a s
apply (ptt a) s = set_ptt a s
apply (tune a) s = set_tune a s
apply (power a) s = set_power a s
apply (swr a) s = set_swr a s
apply (span a) s = set_span a s
apply (center a) s = set_center a s
apply (ref_level a) s = set_ref_level a s
apply (bin_count a) s = set_bin_count a s
apply (main_volume a) s = set_main_volume a s
apply (sub_volume a) s = set_sub_volume a s
apply (sidetone_pitch a) s = set_sidetone_pitch a s
apply (nr_enabled a b c) s = set_nr_enabled a b c s
apply (nr_level a b c) s = set_nr_level a b c s
apply (cw_speed a) s = set_cw_speed a s
apply (cw_iambic_mode a) s = set_cw_iambic_mode a s
apply (kpa_state a) s = set_kpa_state a s
apply (connection_state a b) s = set_connection_state a b s
apply (cat_state a b) s = set_cat_state a b s
apply (dx_cluster_state a b) s = set_dx_cluster_state a b s

-- The setters that compare before they write; the others notify in any case.
abbrev pub compares : Op → Bool
compares (kpa_state a) = false
compares (connection_state a b) = false
compares (cat_state a b) = false
compares (dx_cluster_state a b) = false
compares _ = true

-- The data after a sequence of calls, from any thread: each call holds the mutex.
unfoldable pub apply_all : List Op → RadioStateData → RadioStateData
apply_all [] s = s
apply_all (op ∷ ops) s = apply_all ops (apply op s).0
