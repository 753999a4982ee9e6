-- ===== src/RadioState/Reports.antt =====
-- The reports of the radio that `parseCatCommand` understands, as the radio prints them.
use ak.Base.{ℕ, ◌≡◌, refl, ◌∙◌, Bool, true, false, ◌∷◌, ◌++◌, ◌==◌, ◌||◌, ◌-◌, arith}
use ak.Base.Int.{ℤ, pos}
use ak.Base.Text.{Bytes, codes, print_padded, equal, stoi, scan}
use ak.Base.Decimal.{InRange, stoi-print_padded}
use ak.RadioState.{RadioStateData}
use ak.RadioState.Setters.{set_mode, set_smeter, set_ptt}
use ak.RadioState.Op.{Op, frequency, mode, smeter, ptt, power, apply}
use ak.RadioState.Cat.{
  parse_cat_command, parse_mode, parse_smeter, parse_tx, parse_power, map_mode, pop_semicolon,
}
use ak.RadioState.Commands.{parse_frequency_report, command_sm, command_pc, length-print_padded}

-- The modes of the radio.
pub data RadioMode : Type 0 where
  lsb usb cw fm am data_mode cw_reverse data_reverse : RadioMode

pub data Report : Type 0 where
  frequency_a frequency_b smeter_a smeter_b watts : ℤ → Report
  mode_a : RadioMode → Report
  transmits : Bool → Report

-- The radio's digit for a mode.
unfoldable pub digit : RadioMode → Bytes
digit lsb = codes "1"
digit usb = codes "2"
digit cw = codes "3"
digit fm = codes "4"
digit am = codes "5"
digit data_mode = codes "6"
digit cw_reverse = codes "7"
digit data_reverse = codes "9"

-- `QK4_MODE_LSB` and those behind it.
unfoldable pub qk4_mode : RadioMode → ℕ
qk4_mode lsb = 0
qk4_mode usb = 1
qk4_mode cw = 2
qk4_mode cw_reverse = 3
qk4_mode data_mode = 4
qk4_mode data_reverse = 5
qk4_mode am = 6
qk4_mode fm = 7

unfoldable pub print_report : Report → Bytes
unfolding digit
print_report (frequency_a hz) = codes "FA" ++ (print_padded 11 hz ++ codes ";")
print_report (frequency_b hz) = codes "FB" ++ (print_padded 11 hz ++ codes ";")
print_report (smeter_a n) = codes "SM0" ++ (print_padded 4 n ++ codes ";")
print_report (smeter_b n) = codes "SM1" ++ (print_padded 4 n ++ codes ";")
print_report (watts n) = codes "PC" ++ (print_padded 3 n ++ codes ";")
print_report (mode_a m) = codes "MD" ++ (digit m ++ codes ";")
print_report (transmits true) = codes "TQ1;"
print_report (transmits false) = codes "TQ0;"

-- What it says of the radio.
unfoldable pub says : Report → Op
unfolding qk4_mode
says (frequency_a hz) = frequency (pos 0) hz
says (frequency_b hz) = frequency (pos 1) hz
says (smeter_a n) = smeter (pos 0) n
says (smeter_b n) = smeter (pos 1) n
says (watts n) = power n
says (mode_a m) = mode (pos 0) (pos (qk4_mode m))
says (transmits b) = ptt b

-- The numbers are those of the types that the source reads them into.
abbrev pub Fits : Report → Type 0
Fits (frequency_a hz) = InRange 63 hz
Fits (frequency_b hz) = InRange 63 hz
Fits (smeter_a n) = InRange 31 n
Fits (smeter_b n) = InRange 31 n
Fits (watts n) = InRange 31 n
Fits (mode_a m) = Unit
Fits (transmits b) = Unit

smeter_report :
    (c : ℕ) (n : ℤ) (s : RadioStateData)
    → InRange 31 n
    → (c == b'0' || c == b'1') ≡ true
    → parse_cat_command (codes "SM" ++ ((c ∷ print_padded 4 n) ++ codes ";")) s
      ≡ set_smeter (pos (c - b'0')) n s
unfolding parse_smeter
smeter_report c n s h d =
    command_sm (c ∷ print_padded 4 n) s (omega (arith, length-print_padded 4 n))
    ∙ rw (stoi-print_padded 4 n h, parse_smeter, d)

mode_report :
    (m : RadioMode) (s : RadioStateData)
    → parse_cat_command (codes "MD" ++ (digit m ++ codes ";")) s
      ≡ set_mode (pos 0) (pos (qk4_mode m)) s
unfolding parse_cat_command equal parse_mode pop_semicolon map_mode stoi scan digit qk4_mode
mode_report lsb s = refl
mode_report usb s = refl
mode_report cw s = refl
mode_report fm s = refl
mode_report am s = refl
mode_report data_mode s = refl
mode_report cw_reverse s = refl
mode_report data_reverse s = refl

tx_report :
    (b : Bool) (s : RadioStateData) → parse_cat_command (print_report (transmits b)) s ≡ set_ptt b s
unfolding parse_cat_command equal parse_tx pop_semicolon print_report
tx_report true s = refl
tx_report false s = refl

-- The radio's reports of both frequencies, of the mode, of both signal strengths, of the power and of
-- the transmitter are understood: each is the call of the one setter for what it says, with its value
-- exactly, for every 64-bit frequency, every 32-bit number, and every mode of the radio.
pub parse_cat_command-print_report :
    (r : Report) (s : RadioStateData)
    → Fits r
    → parse_cat_command (print_report r) s ≡ apply (says r) s
unfolding print_report says apply parse_power
parse_cat_command-print_report (frequency_a hz) s h = (parse_frequency_report hz s h).0
parse_cat_command-print_report (frequency_b hz) s h = (parse_frequency_report hz s h).1
parse_cat_command-print_report (smeter_a n) s h = smeter_report b'0' n s h (ground arith)
parse_cat_command-print_report (smeter_b n) s h = smeter_report b'1' n s h (ground arith)
parse_cat_command-print_report (watts n) s h =
    command_pc (print_padded 3 n) s (omega (arith, length-print_padded 3 n))
    ∙ rw (stoi-print_padded 3 n h, parse_power)
parse_cat_command-print_report (mode_a m) s h = mode_report m s
parse_cat_command-print_report (transmits true) s h = tx_report true s
parse_cat_command-print_report (transmits false) s h = tx_report false s
