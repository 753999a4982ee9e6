-- ===== src/Engine/Sent.antt =====
-- The text of each command to the radio, and what makes a command refused.
use mathlib.Core.Option
use ak.Base.{
  ◌+◌, ◌/◌, ◌^◌, ◌<◌, true, false, Option, none, some, List, [], ◌∷◌, ◌++◌, zero, suc,
  if◌then◌else◌,
}
use ak.Base.Int.{ℤ, pos, negsuc}
use ak.Base.Text.{Bytes, codes, padded}
use ak.Protocol.{encode, type_cat_command}
use ak.RadioState.{is_zero}
use ak.RadioState.Reports.{
  RadioMode, lsb, usb, cw, cw_reverse, data_mode, data_reverse, am, fm, print_report, frequency_a,
  frequency_b, watts, mode_a,
}
use ak.RadioUtils.Bands.{BandInfo, get_band_by_id}
use ak.Engine.{Engine, tcp_send, err_invalid_param}
use ak.Engine.Commands.{
  Command, Result, frequency, mode, agc, filter_bw, ptt, tune, power, band, notch, center,
}
use ak.Engine.RoundTrip.{Fits}

-- The entry of a number, if it has one.
unfoldable pub entry : {A : Type 0} → List A → ℤ → Option A
entry [] i = none
entry (x ∷ xs) (pos zero) = some x
entry (x ∷ xs) (pos (suc i)) = entry xs (pos i)
entry (x ∷ xs) (negsuc i) = none

-- The radio's mode of each of the application's modes, `QK4_MODE_LSB` to `QK4_MODE_FM`.
abbrev pub modes : List RadioMode
modes = lsb ∷ usb ∷ cw ∷ cw_reverse ∷ data_mode ∷ data_reverse ∷ am ∷ fm ∷ []

-- Off, slow and fast.
abbrev pub agc_texts : List Bytes
agc_texts = codes "GT0;" ∷ codes "GT2;" ∷ codes "GT4;" ∷ []

-- In tens of hertz, with four digits or more.
unfoldable pub tens : ℤ → Bytes
tens (pos hz) = padded 4 (hz / 10) ++ codes ";"
tens (negsuc hz) = []

-- The text that asks the radio for this, or `none` where there is no such mode, setting or band. A
-- frequency, a mode and a power are asked for in the words in which the radio reports them.
unfoldable pub asked : Command → Option Bytes
unfolding entry tens
asked (frequency vfo hz) =
    some (if is_zero vfo then print_report (frequency_a hz) else print_report (frequency_b hz))
asked (mode vfo m) = Option.map (λ r. print_report (mode_a r)) (entry modes m)
asked (agc vfo m) = entry agc_texts m
asked (filter_bw vfo hz) = some (codes "BW" ++ tens hz)
asked (ptt true) = some (codes "TX;")
asked (ptt false) = some (codes "RX;")
asked (tune true) = some (codes "SWH16;")
asked (tune false) = some (codes "SWH00;")
asked (power w) = some (print_report (watts w))
asked (band id) =
    Option.map (λ b. print_report (frequency_a (pos ((b.lower_hz + b.upper_hz) / 2))))
      (get_band_by_id id)
asked (notch vfo true hz) = some (codes "NT1;BP" ++ tens hz)
asked (notch vfo false hz) = some (codes "NT0;")

-- What the caller is answered, with the engine behind the call: one frame is sent, or none.
unfoldable pub answer : Option Bytes → Engine → Result
answer none e = (err_invalid_param, e)
answer (some text) e =
    (pos 0, record e { events = e.events ++ tcp_send (encode type_cat_command text) ∷ [] })

-- The numbers fit the buffers. They are not negative, but for a frequency.
abbrev pub FitsBuffer : Command → Type 0
FitsBuffer (frequency vfo hz) = Fits hz
FitsBuffer (filter_bw vfo (pos hz)) = hz < 2 ^ 31
FitsBuffer (filter_bw vfo (negsuc hz)) = ⊥
FitsBuffer (power (pos w)) = w < 10 ^ 8
FitsBuffer (power (negsuc w)) = ⊥
FitsBuffer (notch vfo true (pos hz)) = hz < 10 ^ 9
FitsBuffer (notch vfo true (negsuc hz)) = ⊥
FitsBuffer _ = Unit

-- The middle of each band has few digits.
abbrev AllFit : List BandInfo → Type 0
AllFit [] = Unit
AllFit (b ∷ bs) = Fits (center b) × AllFit bs

abbrev FoundFits : Option BandInfo → Type 0
FoundFits none = Unit
FoundFits (some b) = Fits (center b)
