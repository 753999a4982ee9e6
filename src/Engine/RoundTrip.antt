-- ===== src/Engine/RoundTrip.antt =====
-- What the commands of qk4_engine.cpp send, and how radio_state.cpp reads the same text.
use ak.Base.{
  ℕ, suc, ◌^◌, ◌≤◌, ◌<◌, ◌≡◌, ap, sym, ◌∙◌, true, false, inl, inr, some, [], ◌∷◌, ◌++◌, arith,
  length, length-append, take-all, if◌then◌else◌, Bool-cases, Option-cases,
}
use ak.Base.Int.{ℤ, pos, negsuc}
use ak.Base.Text.{Bytes, codes, print_int, print_padded, padded, decimal}
use ak.Base.Decimal.{
  InRange, stoi-print_padded, length-padded_le, length-padded_ge, length-decimal, padded-zero,
  padded-DigitFirst,
}
use mathlib.Core.Path.{subst}
use ak.RadioState.{RadioStateData, is_zero}
use ak.RadioState.Setters
use ak.RadioState.Cat.{parse_cat_command, map_mode, parse_mode, parse_power}
use ak.RadioState.Commands.{parse_frequency_report, command_md, command_pc}
use ak.Engine.{Engine, send_cat, err_not_connected}
use ak.Engine.Commands.{
  Command, Result, perform, frequency, mode, agc, filter_bw, ptt, tune, power, band, notch,
  if_connected, mode_map, frequency_command, mode_command, power_command, set_frequency, set_mode,
  set_ptt, set_tune, set_power, set_band, set_agc, set_filter_bw, set_notch,
}

-- With no connection no command sends or changes anything, and each returns
-- `QK4_ERR_NOT_CONNECTED`.
pub perform_disconnected :
    (c : Command) (e : Engine) → e.tcp_connected ≡ false → perform c e ≡ (err_not_connected, e)
unfolding perform set_frequency set_mode set_ptt set_tune set_power set_band set_agc set_filter_bw
    set_notch if_connected
perform_disconnected (frequency a b) e h = rw h
perform_disconnected (mode a b) e h = rw h
perform_disconnected (agc a b) e h = rw h
perform_disconnected (filter_bw a b) e h = rw h
perform_disconnected (ptt a) e h = rw h
perform_disconnected (tune a) e h = rw h
perform_disconnected (power a) e h = rw h
perform_disconnected (band a) e h = rw h
perform_disconnected (notch a b c) e h = rw h

pub if_connected-true : (e : Engine) (r : Result) → e.tcp_connected ≡ true → if_connected e r ≡ r
unfolding if_connected
if_connected-true e r h = rw h

-- A frequency with at most 16 characters.
abbrev pub Fits : ℤ → Type 0
Fits (pos n) = n < 10 ^ 15
Fits (negsuc n) = suc n < 10 ^ 15

Fits-InRange : (freq : ℤ) → Fits freq → InRange 63 freq
Fits-InRange (pos n) h = omega arith
Fits-InRange (negsuc n) h = omega arith

length-print_padded-Fits : (freq : ℤ) → Fits freq → length (print_padded 11 freq) ≤ 16
unfolding print_padded
length-print_padded-Fits (pos n) h = omega (arith, length-padded_le 11 14 n (omega arith) h)
length-print_padded-Fits (negsuc n) h =
    omega (arith, length-padded_le 10 14 (suc n) (omega arith) h)

pub frequency_command_text :
    (vfo freq : ℤ)
    → Fits freq
    → frequency_command vfo freq
      ≡ (if is_zero vfo then codes "FA" else codes "FB") ++ (print_padded 11 freq ++ (b';' ∷ []))
unfolding frequency_command
frequency_command_text vfo freq h = take-all 19 _ (elim (Bool-cases (is_zero vfo)) [
  | inl t ↦ rw t (
      ground
        (arith, length-append (print_padded 11 freq) (b';' ∷ []), length-print_padded-Fits freq h))
  | inr t ↦ rw t (
      ground
        (arith, length-append (print_padded 11 freq) (b';' ∷ []), length-print_padded-Fits freq h))
])

-- A tuning command and the radio's report of it agree: with a connection and a frequency of at most
-- 15 digits, VFO A's (0) and VFO B's (1) command is one frame, and its text, read as a report from
-- the radio, sets the frequency of the same VFO to the same value.
pub set_frequency_round_trip :
    (freq : ℤ) (e : Engine) (s : RadioStateData)
    → e.tcp_connected ≡ true
    → Fits freq
    → ((text : Bytes) × (set_frequency (pos 0) freq e ≡ (pos 0, send_cat text e))
        × (parse_cat_command text s ≡ Setters.set_frequency (pos 0) freq s))
      × ((text : Bytes) × (set_frequency (pos 1) freq e ≡ (pos 0, send_cat text e))
          × (parse_cat_command text s ≡ Setters.set_frequency (pos 1) freq s))
unfolding set_frequency
set_frequency_round_trip freq e s c h =
    let report = parse_frequency_report freq s (Fits-InRange freq h) in
    (
      (
        frequency_command (pos 0) freq,
        if_connected-true e _ c,
        ap (λ t. parse_cat_command t s) (frequency_command_text (pos 0) freq h) ∙ report.0,
      ),
      (
        frequency_command (pos 1) freq,
        if_connected-true e _ c,
        ap (λ t. parse_cat_command t s) (frequency_command_text (pos 1) freq h) ∙ report.1,
      ),
    )

-- `modeMap` and the switch in `parseCatCommand` are inverse to each other.
pub map_mode-mode_map : (m : ℤ) (k : ℕ) → mode_map m ≡ some k → map_mode (pos k) ≡ some m
unfolding mode_map map_mode
map_mode-mode_map (pos m) k h = ground arith
map_mode-mode_map (negsuc m) k h = ground arith

mode_map-cases : (m : ℕ) → m < 8 → (k : ℕ) × (mode_map (pos m) ≡ some k) × (k < 10)
unfolding mode_map
mode_map-cases m h = elim (Option-cases (mode_map (pos m))) [
  | inl n ↦ ground arith
  | inr (k, n) ↦ (k, n, ground arith)
]

print_int-print_padded : (k : ℕ) → print_int (pos k) ≡ print_padded 0 (pos k)
unfolding print_int print_padded
print_int-print_padded k = sym (padded-zero k)

length-print_int_pos : (k : ℕ) → 0 < length (print_int (pos k))
unfolding print_int
length-print_int_pos k =
    let d = padded-DigitFirst 0 k in
    subst (λ t. 0 < length t) (sym d.2 ∙ padded-zero k) (omega arith)

mode_command_text :
    (k : ℕ) → k < 10 → mode_command k ≡ codes "MD" ++ (print_int (pos k) ++ (b';' ∷ []))
unfolding mode_command print_int
mode_command_text k h =
    take-all 7 _ (ground (arith, length-append (decimal k) (b';' ∷ []), length-decimal 0 k h))

read_mode :
    (m k : ℕ) (s : RadioStateData)
    → k < 10
    → mode_map (pos m) ≡ some k
    → parse_mode (print_int (pos k)) s ≡ Setters.set_mode (pos 0) (pos m) s
unfolding parse_mode
read_mode m k s h n =
    subst (λ t. parse_mode t s ≡ Setters.set_mode (pos 0) (pos m) s)
      (sym (print_int-print_padded k))
      (rw
        (stoi-print_padded 0 (pos k) (omega (arith, h)), parse_mode, map_mode-mode_map (pos m) k n))

-- A mode command and the radio's report of it: with a connection and a mode between 0 and 7, for
-- every VFO that the caller names, the command is one frame, and its text, read as a report from the
-- radio, sets the mode of VFO A.
pub set_mode_round_trip :
    (vfo : ℤ) (m : ℕ) (e : Engine) (s : RadioStateData)
    → e.tcp_connected ≡ true
    → m < 8
    → (text : Bytes) × (set_mode vfo (pos m) e ≡ (pos 0, send_cat text e))
      × (parse_cat_command text s ≡ Setters.set_mode (pos 0) (pos m) s)
unfolding set_mode
set_mode_round_trip vfo m e s c h =
    let k = mode_map-cases m h in
    (
      mode_command k.0,
      if_connected-true e _ c ∙ rw (k.1),
      ap (λ t. parse_cat_command t s) (mode_command_text k.0 k.2)
          ∙ command_md _ s (length-print_int_pos k.0)
          ∙ read_mode m k.0 s k.2 k.1,
    )

pub power_command_text :
    (w : ℕ)
    → w < 10 ^ 8
    → power_command (pos w) ≡ codes "PC" ++ (print_padded 3 (pos w) ++ (b';' ∷ []))
unfolding power_command print_padded
power_command_text w h =
    take-all 11 _ (
      ground
        (arith, length-append (padded 3 w) (b';' ∷ []), length-padded_le 3 7 w (omega arith) h))

-- A power command and the radio's report of it agree: with a connection and a power below 10^8 watts
-- the command is one frame, and its text, read as a report from the radio, sets the same power.
pub set_power_round_trip :
    (w : ℕ) (e : Engine) (s : RadioStateData)
    → e.tcp_connected ≡ true
    → w < 10 ^ 8
    → (text : Bytes) × (set_power (pos w) e ≡ (pos 0, send_cat text e))
      × (parse_cat_command text s ≡ Setters.set_power (pos w) s)
unfolding set_power
set_power_round_trip w e s c h = (
  power_command (pos w),
  if_connected-true e _ c,
  ap (λ t. parse_cat_command t s) (power_command_text w h)
      ∙ command_pc (print_padded 3 (pos w)) s
          (unfold print_padded in omega (arith, length-padded_ge 3 w))
      ∙ unfold parse_power in rw (stoi-print_padded 3 (pos w) (omega (arith, h)), parse_power),
)
