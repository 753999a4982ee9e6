-- ===== src/Api/Null.antt =====
-- Null handles, and what `qk4_create` makes of the settings.
use ak.Base.{ℕ, ◌≤◌, ◌≡◌, refl, true, false, Option, none, some, Bool, arith, if◌then◌else◌}
use ak.Base.Int.{ℤ, pos, negsuc}
use ak.Engine
use ak.Engine.{returns, and_then}
use ak.Reconnect.{is_exhausted}
use ak.TcpClient.{configure_keepalive}
use ak.Api.{
  Config, positive_or, engine_config, validate_handle, validate_handle_void, qk4_connect,
  qk4_disconnect, err_invalid_handle,
}
use ak.Api.Control
use ak.Api.Session.{
  RadioCall, LocalCall, Call, number, nothing, radio_call, local_call, call, radio, local, connect,
  disconnect, set_frequency, set_mode, set_ptt, set_tune, set_power, set_band, set_agc,
  set_filter_bw, set_notch, set_nr, cw_key, cw_set_speed, cw_set_iambic_mode, audio_set_volume,
  audio_set_sidetone_pitch, spectrum_set_span, spectrum_set_center, spectrum_set_ref_level,
  set_state_callback, set_spectrum_callback, set_audio_callback, set_error_callback,
  set_connection_callback, dxcluster_set_spot_callback, kpa_set_status_callback, cat_start,
  cat_stop, dxcluster_connect, dxcluster_disconnect, kpa_connect, kpa_disconnect, kpa_set_operate,
  kpa_set_band, audio_set_jitter_buffer,
}

-- Whether a function returns a number, and not nothing.
unfoldable pub has_result : LocalCall → Bool
has_result (set_nr a b c d) = true
has_result (cat_start a b) = true
has_result (dxcluster_connect a b c) = true
has_result kpa_connect = true
has_result (kpa_set_operate a) = true
has_result (kpa_set_band a) = true
has_result _ = false

-- What a function answers when the handle is null.
unfoldable pub null_answer : Call → Option ℤ
unfolding has_result
null_answer (local c) = if has_result c then some err_invalid_handle else none
null_answer disconnect = none
null_answer _ = some err_invalid_handle

radio_call-none : (c : RadioCall) → radio_call c none ≡ returns (err_invalid_handle, none)
unfolding radio_call validate_handle Control.qk4_set_frequency Control.qk4_set_mode
    Control.qk4_set_ptt Control.qk4_set_tune Control.qk4_set_power Control.qk4_set_band
    Control.qk4_set_agc Control.qk4_set_filter_bw Control.qk4_set_notch
radio_call-none (set_frequency a b) = refl
radio_call-none (set_mode a b) = refl
radio_call-none (set_ptt a) = refl
radio_call-none (set_tune a) = refl
radio_call-none (set_power a) = refl
radio_call-none (set_band a) = refl
radio_call-none (set_agc a b) = refl
radio_call-none (set_filter_bw a b) = refl
radio_call-none (set_notch a b c) = refl

local_call-none :
    (c : LocalCall)
    → local_call c none ≡ returns (if has_result c then some err_invalid_handle else none, none)
unfolding local_call has_result validate_handle validate_handle_void number nothing and_then
    Control.qk4_set_nr Control.qk4_cw_key Control.qk4_cw_set_speed Control.qk4_cw_set_iambic_mode
    Control.qk4_audio_set_volume Control.qk4_audio_set_sidetone_pitch Control.qk4_spectrum_set_span
    Control.qk4_spectrum_set_center Control.qk4_spectrum_set_ref_level
    Control.qk4_set_state_callback Control.qk4_set_spectrum_callback Control.qk4_set_audio_callback
    Control.qk4_set_error_callback Control.qk4_set_connection_callback
    Control.qk4_dxcluster_set_spot_callback Control.qk4_kpa_set_status_callback
    Control.qk4_cat_start Control.qk4_cat_stop Control.qk4_dxcluster_connect
    Control.qk4_dxcluster_disconnect Control.qk4_kpa_connect Control.qk4_kpa_disconnect
    Control.qk4_kpa_set_operate Control.qk4_kpa_set_band Control.qk4_audio_set_jitter_buffer
local_call-none (set_nr a b c d) = refl
local_call-none (cw_key a) = refl
local_call-none (cw_set_speed a) = refl
local_call-none (cw_set_iambic_mode a) = refl
local_call-none (audio_set_volume a b) = refl
local_call-none (audio_set_sidetone_pitch a) = refl
local_call-none (spectrum_set_span a) = refl
local_call-none (spectrum_set_center a) = refl
local_call-none (spectrum_set_ref_level a) = refl
local_call-none (set_state_callback a) = refl
local_call-none (set_spectrum_callback a) = refl
local_call-none (set_audio_callback a) = refl
local_call-none (set_error_callback a) = refl
local_call-none (set_connection_callback a) = refl
local_call-none (dxcluster_set_spot_callback a) = refl
local_call-none (kpa_set_status_callback a) = refl
local_call-none (cat_start a b) = refl
local_call-none cat_stop = refl
local_call-none (dxcluster_connect a b c) = refl
local_call-none dxcluster_disconnect = refl
local_call-none kpa_connect = refl
local_call-none kpa_disconnect = refl
local_call-none (kpa_set_operate a) = refl
local_call-none (kpa_set_band a) = refl
local_call-none (audio_set_jitter_buffer a) = refl

-- A null handle is answered by each function that takes a handle and can change the engine,
-- `qk4_destroy` apart: it returns, with `QK4_ERR_INVALID_HANDLE` if it has a result, and does nothing.
pub call-none : (c : Call) → call c none ≡ returns (null_answer c, none)
unfolding call null_answer number nothing and_then qk4_connect qk4_disconnect validate_handle
    validate_handle_void
call-none (radio c) = rw (radio_call-none c)
call-none (local c) = local_call-none c
call-none (connect a b c d f g) = refl
call-none disconnect = refl

positive_or-Positive : (z : ℤ) (d : ℕ) → 1 ≤ d → 1 ≤ positive_or z d
unfolding positive_or
positive_or-Positive (pos n) d h = ground arith
positive_or-Positive (negsuc n) d h = h

-- Whatever settings the application passes, zero and negative ones included, and if it passes none:
-- the options of the keepalive that the client of the engine sets are positive, as the system wants
-- them, and the engine's reconnect policy does not begin exhausted.
pub engine_config-Usable :
    (config : Option Config) (ready : Bool)
    → let c = engine_config config in
      let k = configure_keepalive c.keepalive_interval_s c.keepalive_max_probes in
      (1 ≤ k.idle)
      × (1 ≤ k.interval)
      × (1 ≤ k.count)
      × (k.interval ≤ k.idle)
      × (is_exhausted (Engine.new c.reconnect_max_attempts ready).reconnect ≡ false)
unfolding engine_config configure_keepalive is_exhausted Engine.new
engine_config-Usable none ready = ground arith
engine_config-Usable (some c) ready = ground (
  arith,
  positive_or-Positive c.keepalive_interval_s 15,
  positive_or-Positive c.keepalive_max_probes 3,
  positive_or-Positive c.reconnect_max_attempts 10,
)
