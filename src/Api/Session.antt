-- ===== src/Api/Session.antt =====
-- Sessions of an application with qk4_api.cpp: calls one behind another on one handle.
use ak.Base.{ℕ, Bool, Option, none, some, List, [], ◌∷◌}
use ak.Base.Int.{ℤ}
use ak.Base.Text.{Bytes}
use ak.Engine.{Run, returns, and_then}
use ak.Api.{Handle, qk4_connect, qk4_disconnect}
use ak.Api.Control.{
  qk4_set_frequency, qk4_set_mode, qk4_set_ptt, qk4_set_tune, qk4_set_power, qk4_set_band,
  qk4_set_agc, qk4_set_filter_bw, qk4_set_notch, qk4_set_nr, qk4_cw_key, qk4_cw_set_speed,
  qk4_cw_set_iambic_mode, qk4_audio_set_volume, qk4_audio_set_sidetone_pitch, qk4_spectrum_set_span,
  qk4_spectrum_set_center, qk4_spectrum_set_ref_level, qk4_set_state_callback,
  qk4_set_spectrum_callback, qk4_set_audio_callback, qk4_set_error_callback,
  qk4_set_connection_callback, qk4_dxcluster_set_spot_callback, qk4_kpa_set_status_callback,
  qk4_cat_start, qk4_cat_stop, qk4_dxcluster_connect, qk4_dxcluster_disconnect, qk4_kpa_connect,
  qk4_kpa_disconnect, qk4_kpa_set_operate, qk4_kpa_set_band, qk4_audio_set_jitter_buffer,
}

-- What a function returns, if it returns a number, and the handle behind it.
abbrev pub Answer : Type 0
Answer = Option ℤ × Handle

unfoldable pub number : Run (ℤ × Handle) → Run Answer
unfolding and_then
number r = and_then r (λ q. returns (some (q.0), q.1))

unfoldable pub nothing : Run Handle → Run Answer
unfolding and_then
nothing r = and_then r (λ h. returns (none, h))

-- Calls of the functions that send a command to the radio.
pub data RadioCall : Type 0 where
  set_frequency set_mode set_agc set_filter_bw : ℤ → ℤ → RadioCall
  set_ptt set_tune set_power set_band : ℤ → RadioCall
  set_notch : ℤ → ℤ → ℤ → RadioCall

-- Calls of the other functions that take the handle, less those of the connection.
pub data LocalCall : Type 0 where
  set_nr : ℤ → ℤ → ℤ → ℤ → LocalCall
  audio_set_volume : ℤ → ℤ → LocalCall
  cw_key cw_set_speed cw_set_iambic_mode audio_set_sidetone_pitch : ℤ → LocalCall
  audio_set_jitter_buffer kpa_set_operate kpa_set_band : ℤ → LocalCall
  spectrum_set_span spectrum_set_center spectrum_set_ref_level : ℤ → LocalCall
  set_state_callback set_spectrum_callback set_audio_callback set_error_callback : Bool → LocalCall
  set_connection_callback dxcluster_set_spot_callback kpa_set_status_callback : Bool → LocalCall
  cat_start : ℕ → ℤ → LocalCall
  dxcluster_connect : Option Bytes → ℕ → Option Bytes → LocalCall
  cat_stop dxcluster_disconnect kpa_connect kpa_disconnect : LocalCall

-- The first argument of `connect` is what the client's `connect` answers.
pub data Call : Type 0 where
  radio : RadioCall → Call
  local : LocalCall → Call
  connect : ℤ → Option Bytes → ℕ → Option Bytes → ℕ → ℤ → Call
  disconnect : Call

unfoldable pub radio_call : RadioCall → Handle → Run (ℤ × Handle)
radio_call (set_frequency a b) h = qk4_set_frequency h a b
radio_call (set_mode a b) h = qk4_set_mode h a b
radio_call (set_ptt a) h = qk4_set_ptt h a
radio_call (set_tune a) h = qk4_set_tune h a
radio_call (set_power a) h = qk4_set_power h a
radio_call (set_band a) h = qk4_set_band h a
radio_call (set_agc a b) h = qk4_set_agc h a b
radio_call (set_filter_bw a b) h = qk4_set_filter_bw h a b
radio_call (set_notch a b c) h = qk4_set_notch h a b c

unfoldable pub local_call : LocalCall → Handle → Run Answer
unfolding number nothing
local_call (set_nr a b c d) h = number (qk4_set_nr h a b c d)
local_call (cw_key a) h = nothing (qk4_cw_key h a)
local_call (cw_set_speed a) h = nothing (qk4_cw_set_speed h a)
local_call (cw_set_iambic_mode a) h = nothing (qk4_cw_set_iambic_mode h a)
local_call (audio_set_volume a b) h = nothing (qk4_audio_set_volume h a b)
local_call (audio_set_sidetone_pitch a) h = nothing (qk4_audio_set_sidetone_pitch h a)
local_call (spectrum_set_span a) h = nothing (qk4_spectrum_set_span h a)
local_call (spectrum_set_center a) h = nothing (qk4_spectrum_set_center h a)
local_call (spectrum_set_ref_level a) h = nothing (qk4_spectrum_set_ref_level h a)
local_call (set_state_callback a) h = nothing (qk4_set_state_callback h a)
local_call (set_spectrum_callback a) h = nothing (qk4_set_spectrum_callback h a)
local_call (set_audio_callback a) h = nothing (qk4_set_audio_callback h a)
local_call (set_error_callback a) h = nothing (qk4_set_error_callback h a)
local_call (set_connection_callback a) h = nothing (qk4_set_connection_callback h a)
local_call (dxcluster_set_spot_callback a) h = nothing (qk4_dxcluster_set_spot_callback h a)
local_call (kpa_set_status_callback a) h = nothing (qk4_kpa_set_status_callback h a)
local_call (cat_start a b) h = number (qk4_cat_start h a b)
local_call cat_stop h = nothing (qk4_cat_stop h)
local_call (dxcluster_connect a b c) h = number (qk4_dxcluster_connect h a b c)
local_call dxcluster_disconnect h = nothing (qk4_dxcluster_disconnect h)
local_call kpa_connect h = number (qk4_kpa_connect h)
local_call kpa_disconnect h = nothing (qk4_kpa_disconnect h)
local_call (kpa_set_operate a) h = number (qk4_kpa_set_operate h a)
local_call (kpa_set_band a) h = number (qk4_kpa_set_band h a)
local_call (audio_set_jitter_buffer a) h = nothing (qk4_audio_set_jitter_buffer h a)

unfoldable pub call : Call → Handle → Run Answer
unfolding number nothing
call (radio c) h = number (radio_call c h)
call (local c) h = local_call c h
call (connect result host port psk psk_len use_tls) h =
    number (qk4_connect result h host port psk psk_len use_tls)
call disconnect h = nothing (qk4_disconnect h)

unfoldable pub session : List Call → Handle → Run Handle
unfolding and_then
session [] h = returns h
session (c ∷ cs) h = and_then (call c h) (λ r. session cs r.1)
