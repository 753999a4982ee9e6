-- ===== src/JniBridge/Natives.antt =====
-- The native methods that need an engine. Each answers a default when the bridge is not
-- initialized, and else calls one C function with the handle.
use ak.Base.{ℕ, ◌-◌, ◌%◌, ◌^◌, Bool, Option, none, some, length, if◌then◌else◌}
use ak.Base.Int.{ℤ, pos, negsuc}
use ak.Base.Text.{Bytes}
use ak.Engine.{Run, returns, and_then, conn_disconnected}
use ak.Api.{Handle, err_invalid_handle, qk4_connect, qk4_disconnect, qk4_get_connection_state}
use ak.Api.Control.{
  qk4_set_frequency, qk4_set_mode, qk4_set_ptt, qk4_set_band, qk4_set_power, qk4_get_frequency,
  qk4_get_mode, qk4_get_smeter, qk4_audio_set_volume, qk4_cw_key, qk4_cw_set_speed,
}
use ak.Api.Session.{Answer, number, nothing}
use ak.JniBridge.{Bridge}

-- What a method answers, if it answers a number, and the bridge behind it.
abbrev pub Result : Type 0
Result = Run (Option ℤ × Bridge)

-- `if (!g_initialized.load()) return default;`, and the call with the handle.
unfoldable pub guarded : Option ℤ → (Handle → Run Answer) → Bridge → Result
unfolding and_then
guarded default f b =
    if b.initialized
    then and_then (f b.handle) (λ r. returns (r.0, record b { handle = r.1 }))
    else returns (default, b)

-- `static_cast<uint16_t>(port)`
unfoldable pub to_uint16 : ℤ → ℕ
to_uint16 (pos n) = n % 2 ^ 16
to_uint16 (negsuc n) = 2 ^ 16 - 1 - n % 2 ^ 16

-- `on ? 1 : 0`
unfoldable pub one_or_zero : Bool → ℤ
one_or_zero b = if b then pos 1 else pos 0

-- The number of bytes of the key, which is 0 if there is none.
unfoldable pub psk_len : Option Bytes → ℕ
psk_len none = 0
psk_len (some psk) = length psk

-- `host` is what `GetStringUTFChars` gives, and the first argument what the engine's client answers.
unfoldable pub native_connect : ℤ → Option Bytes → ℤ → Option Bytes → Bool → Bridge → Result
unfolding guarded to_uint16 one_or_zero psk_len
native_connect result host port psk use_tls = guarded (some err_invalid_handle) (λ h.
    number (qk4_connect result h host (to_uint16 port) psk (psk_len psk) (one_or_zero use_tls)))

unfoldable pub native_disconnect : Bridge → Result
unfolding guarded
native_disconnect = guarded none (λ h. nothing (qk4_disconnect h))

unfoldable pub native_get_connection_state : Bridge → ℤ
native_get_connection_state b =
    if b.initialized then qk4_get_connection_state b.handle else conn_disconnected

unfoldable pub native_set_frequency : ℤ → ℤ → Bridge → Result
unfolding guarded
native_set_frequency vfo freq_hz =
    guarded (some err_invalid_handle) (λ h. number (qk4_set_frequency h vfo freq_hz))

unfoldable pub native_set_mode : ℤ → ℤ → Bridge → Result
unfolding guarded
native_set_mode vfo mode = guarded (some err_invalid_handle) (λ h. number (qk4_set_mode h vfo mode))

unfoldable pub native_set_ptt : Bool → Bridge → Result
unfolding guarded one_or_zero
native_set_ptt on = guarded (some err_invalid_handle) (λ h. number (qk4_set_ptt h (one_or_zero on)))

unfoldable pub native_set_band : ℤ → Bridge → Result
unfolding guarded
native_set_band band_id = guarded (some err_invalid_handle) (λ h. number (qk4_set_band h band_id))

unfoldable pub native_set_power : ℤ → Bridge → Result
unfolding guarded
native_set_power watts = guarded (some err_invalid_handle) (λ h. number (qk4_set_power h watts))

unfoldable pub native_get_frequency : ℤ → Bridge → ℤ
native_get_frequency vfo b = if b.initialized then qk4_get_frequency b.handle vfo else pos 0

unfoldable pub native_get_mode : ℤ → Bridge → ℤ
native_get_mode vfo b = if b.initialized then qk4_get_mode b.handle vfo else pos 0

unfoldable pub native_get_smeter : ℤ → Bridge → ℤ
native_get_smeter vfo b = if b.initialized then qk4_get_smeter b.handle vfo else pos 0

unfoldable pub native_set_volume : ℤ → ℤ → Bridge → Result
unfolding guarded
native_set_volume channel level = guarded none (λ h. nothing (qk4_audio_set_volume h channel level))

unfoldable pub native_cw_key : ℤ → Bridge → Result
unfolding guarded
native_cw_key element = guarded none (λ h. nothing (qk4_cw_key h element))

unfoldable pub native_cw_set_speed : ℤ → Bridge → Result
unfolding guarded
native_cw_set_speed wpm = guarded none (λ h. nothing (qk4_cw_set_speed h wpm))
