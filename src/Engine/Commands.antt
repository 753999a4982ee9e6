-- ===== src/Engine/Commands.antt =====
-- The commands to the radio: `setFrequency` and those behind it in qk4_engine.cpp.
use ak.Base.{ℕ, ◌+◌, ◌-◌, ◌/◌, Bool, Option, none, some, [], ◌∷◌, ◌++◌, if◌then◌else◌, ◌==◌}
use ak.Base.Int.{ℤ, pos, negsuc}
use ak.Base.Text.{Bytes, codes, print_int, print_padded, snprintf}
use ak.RadioState.{is_zero}
use ak.RadioUtils.Bands.{BandInfo, get_band_by_id}
use ak.Engine.{Engine, send_cat, err_not_connected, err_invalid_param}

-- `modeMap` and `agcMap` behind their tests of the index.
unfoldable pub mode_map : ℤ → Option ℕ
mode_map (pos m) =
    if m == 0
    then some 1
    else if m == 1
    then some 2
    else if m == 2
    then some 3
    else if m == 3
    then some 7
    else if m == 4
    then some 6
    else if m == 5
    then some 9
    else if m == 6
    then some 5
    else if m == 7
    then some 4
    else none
mode_map _ = none

unfoldable pub agc_map : ℤ → Option ℕ
agc_map (pos m) =
    if m == 0 then some 0 else if m == 1 then some 2 else if m == 2 then some 4 else none
agc_map _ = none

-- Division of an `int` by a positive number, towards zero.
unfoldable pub div_int : ℤ → ℕ → ℤ
div_int (pos n) d = pos (n / d)
div_int (negsuc n) d = let q = (n + 1) / d in if q == 0 then pos 0 else negsuc (q - 1)

-- What a method returns, and the engine behind it.
abbrev pub Result : Type 0
Result = ℤ × Engine

-- `if (!m_tcpClient->isConnected()) return QK4_ERR_NOT_CONNECTED;`
unfoldable pub if_connected : Engine → Result → Result
if_connected e r = if e.tcp_connected then r else (err_not_connected, e)

unfoldable pub frequency_command : ℤ → ℤ → Bytes
frequency_command vfo freq =
    snprintf 20
      ((if is_zero vfo then codes "FA" else codes "FB") ++ (print_padded 11 freq ++ (b';' ∷ [])))

unfoldable pub set_frequency : ℤ → ℤ → Engine → Result
unfolding if_connected frequency_command
set_frequency vfo freq e = if_connected e (pos 0, send_cat (frequency_command vfo freq) e)

unfoldable pub mode_command : ℕ → Bytes
mode_command k = snprintf 8 (codes "MD" ++ (print_int (pos k) ++ (b';' ∷ [])))

unfoldable pub set_mode : ℤ → ℤ → Engine → Result
unfolding if_connected mode_map mode_command
set_mode vfo mode e = if_connected e (elim (mode_map mode) [
  | none ↦ (err_invalid_param, e)
  | some k ↦ (pos 0, send_cat (mode_command k) e)
])

unfoldable pub set_ptt : Bool → Engine → Result
unfolding if_connected
set_ptt on e = if_connected e (pos 0, send_cat (if on then codes "TX;" else codes "RX;") e)

unfoldable pub set_tune : Bool → Engine → Result
unfolding if_connected
set_tune on e = if_connected e (pos 0, send_cat (if on then codes "SWH16;" else codes "SWH00;") e)

unfoldable pub power_command : ℤ → Bytes
power_command watts = snprintf 12 (codes "PC" ++ (print_padded 3 watts ++ (b';' ∷ [])))

unfoldable pub set_power : ℤ → Engine → Result
unfolding if_connected power_command
set_power watts e = if_connected e (pos 0, send_cat (power_command watts) e)

-- The middle of a band; the edges are below 2 ^ 26, so that the `int64_t` sum does not wrap.
unfoldable pub center : BandInfo → ℤ
center b = pos ((b.lower_hz + b.upper_hz) / 2)

unfoldable pub set_band : ℤ → Engine → Result
unfolding if_connected center
set_band id e = if_connected e (elim (get_band_by_id id) [
  | none ↦ (err_invalid_param, e)
  | some b ↦ set_frequency (pos 0) (center b) e
])

unfoldable pub agc_command : ℕ → Bytes
agc_command k = snprintf 8 (codes "GT" ++ (print_int (pos k) ++ (b';' ∷ [])))

unfoldable pub set_agc : ℤ → ℤ → Engine → Result
unfolding if_connected agc_map agc_command
set_agc vfo mode e = if_connected e (elim (agc_map mode) [
  | none ↦ (err_invalid_param, e)
  | some k ↦ (pos 0, send_cat (agc_command k) e)
])

unfoldable pub set_filter_bw : ℤ → ℤ → Engine → Result
unfolding if_connected div_int
set_filter_bw vfo bandwidth e = if_connected e (
  pos 0,
  send_cat (snprintf 16 (codes "BW" ++ (print_padded 4 (div_int bandwidth 10) ++ (b';' ∷ [])))) e,
)

unfoldable pub set_notch : ℤ → Bool → ℤ → Engine → Result
unfolding if_connected div_int
set_notch vfo enabled freq e = if_connected e (
  pos 0,
  (if enabled
      then send_cat
          (snprintf 16 (codes "NT1;BP" ++ (print_padded 4 (div_int freq 10) ++ (b';' ∷ [])))) e
      else send_cat (codes "NT0;") e),
)

-- A call of one of these methods.
pub data Command : Type 0 where
  frequency mode agc filter_bw : ℤ → ℤ → Command
  ptt tune : Bool → Command
  power band : ℤ → Command
  notch : ℤ → Bool → ℤ → Command

unfoldable pub perform : Command → Engine → Result
perform (frequency vfo freq) e = set_frequency vfo freq e
perform (mode vfo m) e = set_mode vfo m e
perform (agc vfo m) e = set_agc vfo m e
perform (filter_bw vfo hz) e = set_filter_bw vfo hz e
perform (ptt on) e = set_ptt on e
perform (tune on) e = set_tune on e
perform (power watts) e = set_power watts e
perform (band id) e = set_band id e
perform (notch vfo on hz) e = set_notch vfo on hz e
