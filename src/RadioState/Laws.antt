-- ===== src/RadioState/Laws.antt =====
-- What every setter does with the keys that it notifies.
use ak.Base.{true, not, [], ◌≡◌, arith, if◌then◌else◌}
use ak.Base.Int.{pos, clamp}
use ak.RadioState.{is_zero, RadioStateData, get_vfo, put_vfo, get_nr, put_nr}
use ak.RadioState.Setters.{
  set_frequency, set_mode, set_smeter, set_tuning_rate, set_sub_on, set_active_vfo, set_ptt,
  set_tune, set_power, set_swr, set_span, set_center, set_ref_level, set_bin_count, set_main_volume,
  set_sub_volume, set_sidetone_pitch, set_cw_speed, set_cw_iambic_mode,
}
use ak.RadioState.Receivers.{
  set_nr_enabled, set_nr_level, set_kpa_state, set_connection_state, set_cat_state,
  set_dx_cluster_state,
}
use ak.RadioState.Op.{
  Op, apply, compares, frequency, mode, smeter, tuning_rate, sub_on, active_vfo, ptt, tune, power,
  swr, span, center, ref_level, bin_count, main_volume, sub_volume, sidetone_pitch, nr_enabled,
  nr_level, cw_speed, cw_iambic_mode, kpa_state, connection_state, cat_state, dx_cluster_state,
}

-- No data changes without a notification: a call that notifies nothing leaves all of it as it was.
pub apply_silent : (op : Op) (s : RadioStateData) → (apply op s).1 ≡ [] → (apply op s).0 ≡ s
unfolding apply set_frequency set_mode set_smeter set_tuning_rate set_sub_on set_active_vfo set_ptt
    set_tune set_power set_swr set_span set_center set_ref_level set_bin_count set_main_volume
    set_sub_volume set_sidetone_pitch set_nr_enabled set_nr_level set_cw_speed set_cw_iambic_mode
    set_kpa_state set_connection_state set_cat_state set_dx_cluster_state get_vfo put_vfo get_nr
    put_nr
apply_silent (frequency a b) s h = ground arith
apply_silent (mode a b) s h = ground arith
apply_silent (smeter a b) s h = ground arith
apply_silent (tuning_rate a b) s h = ground arith
apply_silent (sub_on a) s h = ground arith
apply_silent (active_vfo a) s h = ground arith
apply_silent (ptt a) s h = ground arith
apply_silent (tune a) s h = ground arith
apply_silent (power a) s h = ground arith
apply_silent (swr a) s h = ground arith
apply_silent (span a) s h = ground arith
apply_silent (center a) s h = ground arith
apply_silent (ref_level a) s h = ground arith
apply_silent (bin_count a) s h = ground arith
apply_silent (main_volume a) s h = ground arith
apply_silent (sub_volume a) s h = ground arith
apply_silent (sidetone_pitch a) s h = ground arith
apply_silent (nr_enabled a b c) s h = ground arith
apply_silent (nr_level a b c) s h = ground arith
apply_silent (cw_speed a) s h = ground arith
apply_silent (cw_iambic_mode a) s h = ground arith
apply_silent (kpa_state a) s h = ground arith
apply_silent (connection_state a b) s h = ground arith
apply_silent (cat_state a b) s h = ground arith
apply_silent (dx_cluster_state a b) s h = ground arith

-- Setting the same value again changes nothing and notifies nothing, for each setter that compares;
-- it holds of the setters that clamp at every value, in range or not.
pub apply_again :
    (op : Op) (s : RadioStateData)
    → compares op ≡ true
    → apply op (apply op s).0 ≡ ((apply op s).0, [])
unfolding apply set_frequency set_mode set_smeter set_tuning_rate set_sub_on set_active_vfo set_ptt
    set_tune set_power set_swr set_span set_center set_ref_level set_bin_count set_main_volume
    set_sub_volume set_sidetone_pitch set_nr_enabled set_nr_level set_cw_speed set_cw_iambic_mode
    set_kpa_state set_connection_state set_cat_state set_dx_cluster_state get_vfo put_vfo get_nr
    put_nr
apply_again (frequency a b) s h = ground arith
apply_again (mode a b) s h = ground arith
apply_again (smeter a b) s h = ground arith
apply_again (tuning_rate a b) s h = ground arith
apply_again (sub_on a) s h = ground arith
apply_again (active_vfo a) s h = ground arith
apply_again (ptt a) s h = ground arith
apply_again (tune a) s h = ground arith
apply_again (power a) s h = ground arith
apply_again (swr a) s h = ground arith
apply_again (span a) s h = ground arith
apply_again (center a) s h = ground arith
apply_again (ref_level a) s h = ground arith
apply_again (bin_count a) s h = ground arith
apply_again (main_volume a) s h = ground arith
apply_again (sub_volume a) s h = ground arith
apply_again (sidetone_pitch a) s h = ground arith
apply_again (nr_enabled a b c) s h = ground arith
apply_again (nr_level a b c) s h = ground arith
apply_again (cw_speed a) s h = ground arith
apply_again (cw_iambic_mode a) s h = ground arith
apply_again (kpa_state a) s h = ground arith
apply_again (connection_state a b) s h = ground arith
apply_again (cat_state a b) s h = ground arith
apply_again (dx_cluster_state a b) s h = ground arith

-- The plain assignment that each setter stands for, with no comparison: a value that has a range is
-- brought into it.
abbrev pub assign : Op → RadioStateData → RadioStateData
assign (frequency a b) s = put_vfo a (record (get_vfo a s) { frequency_hz = b }) s
assign (mode a b) s = put_vfo a (record (get_vfo a s) { mode = b }) s
assign (smeter a b) s = put_vfo a (record (get_vfo a s) { smeter = b }) s
assign (tuning_rate a b) s = put_vfo a (record (get_vfo a s) { tuning_rate = b }) s
assign (sub_on a) s = record s { vfo_b = record (s.vfo_b) { sub_on = a } }
assign (active_vfo a) s = record s {
  vfo_a = record (s.vfo_a) { active = is_zero a };
  vfo_b = record (s.vfo_b) { active = not (is_zero a) };
}
assign (ptt a) s = record s { tx = record (s.tx) { ptt = a } }
assign (tune a) s = record s { tx = record (s.tx) { tune = a } }
assign (power a) s = record s { tx = record (s.tx) { power_watts = a } }
assign (swr a) s = record s { tx = record (s.tx) { swr_x10 = a } }
assign (span a) s = record s { spectrum = record (s.spectrum) { span_hz = a } }
assign (center a) s = record s { spectrum = record (s.spectrum) { center_hz = a } }
assign (ref_level a) s = record s { spectrum = record (s.spectrum) { ref_level_db = a } }
assign (bin_count a) s = record s { spectrum = record (s.spectrum) { bin_count = a } }
assign (cw_iambic_mode a) s = record s { cw = record (s.cw) { iambic_mode = a } }
assign (main_volume a) s = record s {
  audio = record (s.audio) { main_volume = clamp a (pos 0) (pos 100) };
}
assign (sub_volume a) s = record s {
  audio = record (s.audio) { sub_volume = clamp a (pos 0) (pos 100) };
}
assign (sidetone_pitch a) s = record s {
  audio = record (s.audio) { sidetone_hz = clamp a (pos 400) (pos 1000) };
}
assign (cw_speed a) s = record s { cw = record (s.cw) { speed_wpm = clamp a (pos 5) (pos 60) } }
assign (nr_enabled a b c) s =
    let nr = get_nr a s in
    if is_zero b
    then put_nr a (record nr { lms_enabled = c }) s
    else put_nr a (record nr { ssnr_enabled = c }) s
assign (nr_level a b c) s =
    let nr = get_nr a s in
    let level = clamp c (pos 1) (pos 10) in
    if is_zero b
    then put_nr a (record nr { lms_level = level }) s
    else put_nr a (record nr { ssnr_level = level }) s
assign (kpa_state a) s = record s { kpa = a }
assign (connection_state a b) s = record s {
  connection = record (s.connection) { state = a; reconnect_attempts = b };
}
assign (cat_state a b) s = record s { cat = record (s.cat) { running = a; client_count = b } }
assign (dx_cluster_state a b) s = record s {
  dxcluster = record (s.dxcluster) { connected = a; spot_count = b };
}

-- If the `active` flag of one VFO is the negation of the other's, a setter leaves exactly the data
-- of the plain assignment to its own field.
pub apply-assign :
    (op : Op) (s : RadioStateData)
    → s.vfo_b.active ≡ not s.vfo_a.active
    → (apply op s).0 ≡ assign op s
unfolding apply set_frequency set_mode set_smeter set_tuning_rate set_sub_on set_active_vfo set_ptt
    set_tune set_power set_swr set_span set_center set_ref_level set_bin_count set_main_volume
    set_sub_volume set_sidetone_pitch set_nr_enabled set_nr_level set_cw_speed set_cw_iambic_mode
    set_kpa_state set_connection_state set_cat_state set_dx_cluster_state get_vfo put_vfo get_nr
    put_nr
apply-assign (frequency a b) s h = ground arith
apply-assign (mode a b) s h = ground arith
apply-assign (smeter a b) s h = ground arith
apply-assign (tuning_rate a b) s h = ground arith
apply-assign (sub_on a) s h = ground arith
apply-assign (active_vfo a) s h = ground arith
apply-assign (ptt a) s h = ground arith
apply-assign (tune a) s h = ground arith
apply-assign (power a) s h = ground arith
apply-assign (swr a) s h = ground arith
apply-assign (span a) s h = ground arith
apply-assign (center a) s h = ground arith
apply-assign (ref_level a) s h = ground arith
apply-assign (bin_count a) s h = ground arith
apply-assign (cw_iambic_mode a) s h = ground arith
apply-assign (main_volume a) s h = ground arith
apply-assign (sub_volume a) s h = ground arith
apply-assign (sidetone_pitch a) s h = ground arith
apply-assign (cw_speed a) s h = ground arith
apply-assign (nr_enabled a b c) s h = ground arith
apply-assign (nr_level a b c) s h = ground arith
apply-assign (kpa_state a) s h = ground arith
apply-assign (connection_state a b) s h = ground arith
apply-assign (cat_state a b) s h = ground arith
apply-assign (dx_cluster_state a b) s h = ground arith
