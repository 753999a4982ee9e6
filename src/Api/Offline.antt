-- ===== src/Api/Offline.antt =====
-- Calls on an engine whose client is not connected.
use ak.Base.{◌≡◌, refl, ◌∙◌, false, not, Option, none, some}
use ak.Base.Int.{ℤ, pos}
use ak.RadioState.{is_zero}
use ak.RadioState.Invariant.{IsValid}
use ak.Engine.{Engine, Run, returns, and_then, err_not_connected}
use ak.Engine.Frames.{Sound}
use ak.Engine.Commands
use ak.Engine.Commands.{Command, Result, perform}
use ak.Engine.Local
use ak.Engine.Local.{Setting, SameCore, adjust, adjust-Sound}
use ak.Engine.Callbacks
use ak.Engine.Callbacks.{assign-Sound}
use ak.Api.{validate_handle, validate_handle_void}
use ak.Api.Control.{
  qk4_set_frequency, qk4_set_mode, qk4_set_ptt, qk4_set_tune, qk4_set_power, qk4_set_band,
  qk4_set_agc, qk4_set_filter_bw, qk4_set_notch, qk4_set_nr, qk4_cw_key, qk4_cw_set_speed,
  qk4_cw_set_iambic_mode, qk4_audio_set_volume, qk4_audio_set_sidetone_pitch, qk4_spectrum_set_span,
  qk4_spectrum_set_center, qk4_spectrum_set_ref_level, qk4_set_state_callback,
  qk4_set_spectrum_callback, qk4_set_audio_callback, qk4_set_error_callback,
  qk4_set_connection_callback, qk4_dxcluster_set_spot_callback, qk4_kpa_set_status_callback,
  qk4_cat_start, qk4_cat_stop, qk4_dxcluster_connect, qk4_dxcluster_disconnect, qk4_kpa_connect,
  qk4_kpa_disconnect, qk4_kpa_set_operate, qk4_kpa_set_band, qk4_audio_set_jitter_buffer,
}
use ak.Api.Session.{
  RadioCall, LocalCall, Answer, number, nothing, radio_call, local_call, set_frequency, set_mode,
  set_ptt, set_tune, set_power, set_band, set_agc, set_filter_bw, set_notch, set_nr, cw_key,
  cw_set_speed, cw_set_iambic_mode, audio_set_volume, audio_set_sidetone_pitch, spectrum_set_span,
  spectrum_set_center, spectrum_set_ref_level, set_state_callback, set_spectrum_callback,
  set_audio_callback, set_error_callback, set_connection_callback, dxcluster_set_spot_callback,
  kpa_set_status_callback, cat_start, cat_stop, dxcluster_connect, dxcluster_disconnect,
  kpa_connect, kpa_disconnect, kpa_set_operate, kpa_set_band, audio_set_jitter_buffer,
}

-- Between two calls: the mutex is free, nothing is connected, and the radio's state is valid.
pub record Offline (e : Engine) : Type 0 where
  pub unlocked : e.cb_locked ≡ false
  pub offline : e.tcp_connected ≡ false
  pub valid : IsValid e.radio

-- A call that returns, with an engine that is offline.
pub record Continues (run : Run Answer) : Type 0 where
  pub answer : Option ℤ
  pub after : Engine
  pub returned : run ≡ returns (answer, some after)
  pub is_offline : Offline after

-- A command of an engine that is not connected changes nothing.
pub radio_call-refused :
    (c : RadioCall) {e : Engine}
    → e.tcp_connected ≡ false
    → radio_call c (some e) ≡ returns (err_not_connected, some e)
unfolding radio_call validate_handle and_then Commands.if_connected qk4_set_frequency qk4_set_mode
    qk4_set_ptt qk4_set_tune qk4_set_power qk4_set_band qk4_set_agc qk4_set_filter_bw qk4_set_notch
    Commands.set_frequency Commands.set_mode Commands.set_ptt Commands.set_tune Commands.set_power
    Commands.set_band Commands.set_agc Commands.set_filter_bw Commands.set_notch
radio_call-refused (set_frequency a b) h = rw h
radio_call-refused (set_mode a b) h = rw h
radio_call-refused (set_ptt a) h = rw h
radio_call-refused (set_tune a) h = rw h
radio_call-refused (set_power a) h = rw h
radio_call-refused (set_band a) h = rw h
radio_call-refused (set_agc a b) h = rw h
radio_call-refused (set_filter_bw a b) h = rw h
radio_call-refused (set_notch a b c) h = rw h

Sound-Offline : {e : Engine} {run : Run Engine} → Offline e → (s : Sound e run) → Offline s.after
Sound-Offline o s = record {
  unlocked = s.unlocked;
  offline = s.same_link ∙ o.offline;
  valid = s.valid;
}

module _ {e : Engine} (o : Offline e) where
  void-Continues :
      (f : Engine → Run Engine)
      → Sound e (f e)
      → Continues (nothing (validate_handle_void (some e) f))
  unfolding nothing validate_handle_void and_then
  void-Continues f s = record {
    answer = none;
    after = s.after;
    returned = rw s.returned;
    is_offline = Sound-Offline o s;
  }

  same-Continues : (answer : Option ℤ) → Continues (returns (answer, some e))
  same-Continues answer = record { answer = answer; after = e; returned = refl; is_offline = o }

  setting-Continues : (s : Setting) → Continues (nothing (validate_handle_void (some e) (adjust s)))
  setting-Continues s = void-Continues (adjust s) (adjust-Sound s e o.unlocked o.valid)

  callback-Continues :
      (change : Engine → Engine)
      → ((l : Engine) → SameCore l (change l))
      → Continues (nothing (validate_handle_void (some e) (Callbacks.assign change)))
  callback-Continues change h =
      void-Continues (Callbacks.assign change) (assign-Sound change e h o.unlocked o.valid)

  nr-Continues : (a b c d : ℤ) → Continues (number (qk4_set_nr (some e) a b c d))
  unfolding number adjust qk4_set_nr validate_handle and_then
  nr-Continues a b c d =
      let s = adjust-Sound (Local.nr a b (not (is_zero c)) d) e o.unlocked o.valid in
      record {
        answer = some (pos 0);
        after = s.after;
        returned = rw s.returned;
        is_offline = Sound-Offline o s;
      }

  pub local_call-Continues : (c : LocalCall) → Continues (local_call c (some e))
  unfolding local_call adjust number nothing validate_handle validate_handle_void and_then
      qk4_cw_key qk4_cw_set_speed qk4_cw_set_iambic_mode qk4_audio_set_volume
      qk4_audio_set_sidetone_pitch qk4_spectrum_set_span qk4_spectrum_set_center
      qk4_spectrum_set_ref_level qk4_set_state_callback qk4_set_spectrum_callback
      qk4_set_audio_callback qk4_set_error_callback qk4_set_connection_callback
      qk4_dxcluster_set_spot_callback qk4_kpa_set_status_callback qk4_cat_start qk4_cat_stop
      qk4_dxcluster_connect qk4_dxcluster_disconnect qk4_kpa_connect qk4_kpa_disconnect
      qk4_kpa_set_operate qk4_kpa_set_band qk4_audio_set_jitter_buffer Callbacks.set_state_callback
      Callbacks.set_spectrum_callback Callbacks.set_audio_callback Callbacks.set_error_callback
      Callbacks.set_connection_callback Callbacks.set_spot_callback
      Callbacks.set_kpa_status_callback Callbacks.cat_start Callbacks.cat_stop
      Callbacks.dx_cluster_connect Callbacks.dx_cluster_disconnect Callbacks.kpa_connect
      Callbacks.kpa_disconnect Callbacks.kpa_set_operate Callbacks.kpa_set_band
      Callbacks.set_jitter_buffer
  local_call-Continues (set_nr a b c d) = nr-Continues a b c d
  local_call-Continues (cw_key a) = setting-Continues (Local.key a)
  local_call-Continues (cw_set_speed a) = setting-Continues (Local.cw_speed a)
  local_call-Continues (cw_set_iambic_mode a) = setting-Continues (Local.iambic a)
  local_call-Continues (audio_set_volume a b) = setting-Continues (Local.volume a b)
  local_call-Continues (audio_set_sidetone_pitch a) = setting-Continues (Local.pitch a)
  local_call-Continues (spectrum_set_span a) = setting-Continues (Local.span a)
  local_call-Continues (spectrum_set_center a) = setting-Continues (Local.center a)
  local_call-Continues (spectrum_set_ref_level a) = setting-Continues (Local.ref_level a)
  local_call-Continues (set_state_callback a) =
      callback-Continues _ (λ l. record { lock = refl; protocol = refl; link = refl; radio = refl })
  local_call-Continues (set_spectrum_callback a) =
      callback-Continues _ (λ l. record { lock = refl; protocol = refl; link = refl; radio = refl })
  local_call-Continues (set_audio_callback a) =
      callback-Continues _ (λ l. record { lock = refl; protocol = refl; link = refl; radio = refl })
  local_call-Continues (set_error_callback a) =
      callback-Continues _ (λ l. record { lock = refl; protocol = refl; link = refl; radio = refl })
  local_call-Continues (set_connection_callback a) =
      callback-Continues _ (λ l. record { lock = refl; protocol = refl; link = refl; radio = refl })
  local_call-Continues (dxcluster_set_spot_callback a) =
      callback-Continues _ (λ l. record { lock = refl; protocol = refl; link = refl; radio = refl })
  local_call-Continues (kpa_set_status_callback a) =
      callback-Continues _ (λ l. record { lock = refl; protocol = refl; link = refl; radio = refl })
  local_call-Continues (cat_start a b) = same-Continues _
  local_call-Continues cat_stop = same-Continues _
  local_call-Continues (dxcluster_connect none b c) = same-Continues _
  local_call-Continues (dxcluster_connect (some a) b none) = same-Continues _
  local_call-Continues (dxcluster_connect (some a) b (some c)) = same-Continues _
  local_call-Continues dxcluster_disconnect = same-Continues _
  local_call-Continues kpa_connect = same-Continues _
  local_call-Continues kpa_disconnect = same-Continues _
  local_call-Continues (kpa_set_operate a) = same-Continues _
  local_call-Continues (kpa_set_band a) = same-Continues _
  local_call-Continues (audio_set_jitter_buffer a) = same-Continues _
