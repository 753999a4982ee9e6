-- ===== src/RadioState/Setters.antt =====
-- The setters of the VFOs, the transmitter, the spectrum display, the audio and the keyer:
-- `radio_state.cpp`.
use ak.Base.{Bool, true, false, not, [], ◌∷◌, if◌then◌else◌}
use ak.Base.Int.{ℤ, pos, eq_ℤ, clamp}
use ak.RadioState.{RadioStateData, Change, is_zero, get_vfo, put_vfo}

abbrev pub eq_bool : Bool → Bool → Bool
eq_bool true b = b
eq_bool false b = not b

unfoldable pub set_frequency : ℤ → ℤ → RadioStateData → Change
set_frequency vfo value s =
    let v = get_vfo vfo s in
    if eq_ℤ v.frequency_hz value then (s, []) else (
      put_vfo vfo (record v { frequency_hz = value }) s,
      (if is_zero vfo then "vfo.a.freq" else "vfo.b.freq") ∷ [],
    )

unfoldable pub set_mode : ℤ → ℤ → RadioStateData → Change
set_mode vfo value s =
    let v = get_vfo vfo s in
    if eq_ℤ v.mode value then (s, []) else (
      put_vfo vfo (record v { mode = value }) s,
      (if is_zero vfo then "vfo.a.mode" else "vfo.b.mode") ∷ [],
    )

unfoldable pub set_smeter : ℤ → ℤ → RadioStateData → Change
set_smeter vfo value s =
    let v = get_vfo vfo s in
    if eq_ℤ v.smeter value then (s, []) else (
      put_vfo vfo (record v { smeter = value }) s,
      (if is_zero vfo then "vfo.a.smeter" else "vfo.b.smeter") ∷ [],
    )

unfoldable pub set_tuning_rate : ℤ → ℤ → RadioStateData → Change
set_tuning_rate vfo value s =
    let v = get_vfo vfo s in
    if eq_ℤ v.tuning_rate value then (s, []) else (
      put_vfo vfo (record v { tuning_rate = value }) s,
      (if is_zero vfo then "vfo.a.rate" else "vfo.b.rate") ∷ [],
    )

unfoldable pub set_sub_on : Bool → RadioStateData → Change
set_sub_on on s =
    if eq_bool s.vfo_b.sub_on on
    then (s, [])
    else (record s { vfo_b = record (s.vfo_b) { sub_on = on } }, "vfo.b.sub_on" ∷ [])

unfoldable pub set_active_vfo : ℤ → RadioStateData → Change
set_active_vfo vfo s =
    let new_a = is_zero vfo in
    if eq_bool s.vfo_a.active new_a then (s, []) else (
      record s {
        vfo_a = record (s.vfo_a) { active = new_a };
        vfo_b = record (s.vfo_b) { active = not new_a };
      },
      "vfo.active" ∷ [],
    )

unfoldable pub set_ptt : Bool → RadioStateData → Change
set_ptt on s =
    if eq_bool s.tx.ptt on
    then (s, [])
    else (record s { tx = record (s.tx) { ptt = on } }, "tx.ptt" ∷ [])

unfoldable pub set_tune : Bool → RadioStateData → Change
set_tune on s =
    if eq_bool s.tx.tune on
    then (s, [])
    else (record s { tx = record (s.tx) { tune = on } }, "tx.tune" ∷ [])

unfoldable pub set_power : ℤ → RadioStateData → Change
set_power value s =
    if eq_ℤ s.tx.power_watts value
    then (s, [])
    else (record s { tx = record (s.tx) { power_watts = value } }, "tx.power" ∷ [])

unfoldable pub set_swr : ℤ → RadioStateData → Change
set_swr value s =
    if eq_ℤ s.tx.swr_x10 value
    then (s, [])
    else (record s { tx = record (s.tx) { swr_x10 = value } }, "tx.swr" ∷ [])

unfoldable pub set_span : ℤ → RadioStateData → Change
set_span value s =
    if eq_ℤ s.spectrum.span_hz value
    then (s, [])
    else (record s { spectrum = record (s.spectrum) { span_hz = value } }, "spectrum.span" ∷ [])

unfoldable pub set_center : ℤ → RadioStateData → Change
set_center value s =
    if eq_ℤ s.spectrum.center_hz value
    then (s, [])
    else (record s { spectrum = record (s.spectrum) { center_hz = value } }, "spectrum.center" ∷ [])

unfoldable pub set_ref_level : ℤ → RadioStateData → Change
set_ref_level value s =
    if eq_ℤ s.spectrum.ref_level_db value
    then (s, [])
    else (record s { spectrum = record (s.spectrum) { ref_level_db = value } }, "spectrum.ref" ∷ [])

unfoldable pub set_bin_count : ℤ → RadioStateData → Change
set_bin_count value s =
    if eq_ℤ s.spectrum.bin_count value
    then (s, [])
    else (record s { spectrum = record (s.spectrum) { bin_count = value } }, "spectrum.bins" ∷ [])

unfoldable pub set_main_volume : ℤ → RadioStateData → Change
set_main_volume value s =
    let level = clamp value (pos 0) (pos 100) in
    if eq_ℤ s.audio.main_volume level
    then (s, [])
    else (record s { audio = record (s.audio) { main_volume = level } }, "audio.main_vol" ∷ [])

unfoldable pub set_sub_volume : ℤ → RadioStateData → Change
set_sub_volume value s =
    let level = clamp value (pos 0) (pos 100) in
    if eq_ℤ s.audio.sub_volume level
    then (s, [])
    else (record s { audio = record (s.audio) { sub_volume = level } }, "audio.sub_vol" ∷ [])

unfoldable pub set_sidetone_pitch : ℤ → RadioStateData → Change
set_sidetone_pitch value s =
    let level = clamp value (pos 400) (pos 1000) in
    if eq_ℤ s.audio.sidetone_hz level
    then (s, [])
    else (record s { audio = record (s.audio) { sidetone_hz = level } }, "audio.sidetone" ∷ [])

unfoldable pub set_cw_speed : ℤ → RadioStateData → Change
set_cw_speed value s =
    let level = clamp value (pos 5) (pos 60) in
    if eq_ℤ s.cw.speed_wpm level
    then (s, [])
    else (record s { cw = record (s.cw) { speed_wpm = level } }, "cw.speed" ∷ [])

unfoldable pub set_cw_iambic_mode : ℤ → RadioStateData → Change
set_cw_iambic_mode value s =
    if eq_ℤ s.cw.iambic_mode value
    then (s, [])
    else (record s { cw = record (s.cw) { iambic_mode = value } }, "cw.iambic" ∷ [])
