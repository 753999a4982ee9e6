-- ===== src/Api/Control.antt =====
-- The functions of qk4_api.cpp behind those of the connection.
use ak.Base.{ℕ, Bool, not, Option, none, some}
use ak.Base.Int.{ℤ, pos}
use ak.Base.Text.{Bytes}
use ak.RadioState.{is_zero}
use ak.Engine.{Run, returns, and_then, err_invalid_param}
use ak.Engine.Commands
use ak.Engine.Local
use ak.Engine.Callbacks
use ak.Api.{Handle, validate_handle, validate_handle_void, query}

-- An `int32_t` flag.
abbrev flag : ℤ → Bool
flag on = not (is_zero on)

unfoldable pub qk4_set_frequency : Handle → ℤ → ℤ → Run (ℤ × Handle)
qk4_set_frequency handle vfo freq_hz =
    validate_handle handle (λ e. returns (Commands.set_frequency vfo freq_hz e))

unfoldable pub qk4_set_mode : Handle → ℤ → ℤ → Run (ℤ × Handle)
qk4_set_mode handle vfo mode = validate_handle handle (λ e. returns (Commands.set_mode vfo mode e))

unfoldable pub qk4_set_ptt : Handle → ℤ → Run (ℤ × Handle)
qk4_set_ptt handle on = validate_handle handle (λ e. returns (Commands.set_ptt (flag on) e))

unfoldable pub qk4_set_tune : Handle → ℤ → Run (ℤ × Handle)
qk4_set_tune handle on = validate_handle handle (λ e. returns (Commands.set_tune (flag on) e))

unfoldable pub qk4_set_power : Handle → ℤ → Run (ℤ × Handle)
qk4_set_power handle watts = validate_handle handle (λ e. returns (Commands.set_power watts e))

unfoldable pub qk4_set_band : Handle → ℤ → Run (ℤ × Handle)
qk4_set_band handle band_id = validate_handle handle (λ e. returns (Commands.set_band band_id e))

unfoldable pub qk4_set_agc : Handle → ℤ → ℤ → Run (ℤ × Handle)
qk4_set_agc handle vfo agc_mode =
    validate_handle handle (λ e. returns (Commands.set_agc vfo agc_mode e))

unfoldable pub qk4_set_filter_bw : Handle → ℤ → ℤ → Run (ℤ × Handle)
qk4_set_filter_bw handle vfo bandwidth_hz =
    validate_handle handle (λ e. returns (Commands.set_filter_bw vfo bandwidth_hz e))

unfoldable pub qk4_set_notch : Handle → ℤ → ℤ → ℤ → Run (ℤ × Handle)
qk4_set_notch handle vfo enabled freq_hz =
    validate_handle handle (λ e. returns (Commands.set_notch vfo (flag enabled) freq_hz e))

-- The engine's method returns 0.
unfoldable pub qk4_set_nr : Handle → ℤ → ℤ → ℤ → ℤ → Run (ℤ × Handle)
qk4_set_nr handle vfo algorithm enabled level =
    validate_handle handle
      (λ e. and_then (Local.set_nr vfo algorithm (flag enabled) level e) (λ r. returns (pos 0, r)))

unfoldable pub qk4_get_frequency : Handle → ℤ → ℤ
qk4_get_frequency handle vfo = query (pos 0) handle (Local.get_frequency vfo)

-- The mode 0 is LSB.
unfoldable pub qk4_get_mode : Handle → ℤ → ℤ
qk4_get_mode handle vfo = query (pos 0) handle (Local.get_mode vfo)

unfoldable pub qk4_get_smeter : Handle → ℤ → ℤ
qk4_get_smeter handle vfo = query (pos 0) handle (Local.get_smeter vfo)

unfoldable pub qk4_get_tx_state : Handle → ℤ
qk4_get_tx_state handle = query (pos 0) handle Local.get_tx_state

unfoldable pub qk4_get_power_level : Handle → ℤ
qk4_get_power_level handle = query (pos 0) handle Local.get_power_level

unfoldable pub qk4_get_tuning_rate : Handle → ℤ → ℤ
qk4_get_tuning_rate handle vfo = query (pos 0) handle (Local.get_tuning_rate vfo)

unfoldable pub qk4_get_sub_on : Handle → ℤ
qk4_get_sub_on handle = query (pos 0) handle Local.get_sub_on

-- Of a callback, whether the pointer is not null.
unfoldable pub qk4_set_state_callback : Handle → Bool → Run Handle
qk4_set_state_callback handle cb = validate_handle_void handle (Callbacks.set_state_callback cb)

unfoldable pub qk4_set_spectrum_callback : Handle → Bool → Run Handle
qk4_set_spectrum_callback handle cb =
    validate_handle_void handle (Callbacks.set_spectrum_callback cb)

unfoldable pub qk4_set_audio_callback : Handle → Bool → Run Handle
qk4_set_audio_callback handle cb = validate_handle_void handle (Callbacks.set_audio_callback cb)

unfoldable pub qk4_set_error_callback : Handle → Bool → Run Handle
qk4_set_error_callback handle cb = validate_handle_void handle (Callbacks.set_error_callback cb)

unfoldable pub qk4_set_connection_callback : Handle → Bool → Run Handle
qk4_set_connection_callback handle cb =
    validate_handle_void handle (Callbacks.set_connection_callback cb)

unfoldable pub qk4_discovery_start : Handle → Bool → Option ℕ
qk4_discovery_start handle cb = query none handle (Callbacks.start_discovery cb)

unfoldable pub qk4_cat_start : Handle → ℕ → ℤ → Run (ℤ × Handle)
qk4_cat_start handle port max_clients =
    validate_handle handle (λ e. returns (Callbacks.cat_start port max_clients e))

unfoldable pub qk4_cat_stop : Handle → Run Handle
qk4_cat_stop handle = validate_handle_void handle (λ e. returns (Callbacks.cat_stop e))

unfoldable pub qk4_cat_get_client_count : Handle → ℤ
qk4_cat_get_client_count handle = query (pos 0) handle Callbacks.cat_get_client_count

unfoldable pub qk4_dxcluster_connect : Handle → Option Bytes → ℕ → Option Bytes → Run (ℤ × Handle)
qk4_dxcluster_connect handle host port callsign = validate_handle handle (λ e. elim host [
  | none ↦ returns (err_invalid_param, e)
  | some h ↦ elim callsign [
    | none ↦ returns (err_invalid_param, e)
    | some c ↦ returns (Callbacks.dx_cluster_connect h port c e)
  ]
])

unfoldable pub qk4_dxcluster_disconnect : Handle → Run Handle
qk4_dxcluster_disconnect handle =
    validate_handle_void handle (λ e. returns (Callbacks.dx_cluster_disconnect e))

unfoldable pub qk4_dxcluster_set_spot_callback : Handle → Bool → Run Handle
qk4_dxcluster_set_spot_callback handle cb =
    validate_handle_void handle (Callbacks.set_spot_callback cb)

unfoldable pub qk4_cw_key : Handle → ℤ → Run Handle
qk4_cw_key handle element = validate_handle_void handle (λ e. returns (Local.cw_key element e))

unfoldable pub qk4_cw_set_speed : Handle → ℤ → Run Handle
qk4_cw_set_speed handle wpm = validate_handle_void handle (Local.cw_set_speed wpm)

unfoldable pub qk4_cw_set_iambic_mode : Handle → ℤ → Run Handle
qk4_cw_set_iambic_mode handle mode = validate_handle_void handle (Local.cw_set_iambic_mode mode)

unfoldable pub qk4_kpa_connect : Handle → Run (ℤ × Handle)
qk4_kpa_connect handle = validate_handle handle (λ e. returns (Callbacks.kpa_connect e))

unfoldable pub qk4_kpa_disconnect : Handle → Run Handle
qk4_kpa_disconnect handle = validate_handle_void handle (λ e. returns (Callbacks.kpa_disconnect e))

unfoldable pub qk4_kpa_set_operate : Handle → ℤ → Run (ℤ × Handle)
qk4_kpa_set_operate handle operate =
    validate_handle handle (λ e. returns (Callbacks.kpa_set_operate (flag operate) e))

unfoldable pub qk4_kpa_set_band : Handle → ℤ → Run (ℤ × Handle)
qk4_kpa_set_band handle band_id =
    validate_handle handle (λ e. returns (Callbacks.kpa_set_band band_id e))

unfoldable pub qk4_kpa_set_status_callback : Handle → Bool → Run Handle
qk4_kpa_set_status_callback handle cb =
    validate_handle_void handle (Callbacks.set_kpa_status_callback cb)

unfoldable pub qk4_audio_set_volume : Handle → ℤ → ℤ → Run Handle
qk4_audio_set_volume handle channel level =
    validate_handle_void handle (Local.set_volume channel level)

unfoldable pub qk4_audio_set_sidetone_pitch : Handle → ℤ → Run Handle
qk4_audio_set_sidetone_pitch handle hz = validate_handle_void handle (Local.set_sidetone_pitch hz)

unfoldable pub qk4_audio_set_jitter_buffer : Handle → ℤ → Run Handle
qk4_audio_set_jitter_buffer handle ms =
    validate_handle_void handle (λ e. returns (Callbacks.set_jitter_buffer ms e))

unfoldable pub qk4_spectrum_set_span : Handle → ℤ → Run Handle
qk4_spectrum_set_span handle span_hz = validate_handle_void handle (Local.set_spectrum_span span_hz)

unfoldable pub qk4_spectrum_set_center : Handle → ℤ → Run Handle
qk4_spectrum_set_center handle center_hz =
    validate_handle_void handle (Local.set_spectrum_center center_hz)

unfoldable pub qk4_spectrum_set_ref_level : Handle → ℤ → Run Handle
qk4_spectrum_set_ref_level handle ref_db =
    validate_handle_void handle (Local.set_spectrum_ref_level ref_db)
