-- ===== src/DxCluster/Tests.antt =====
-- The DX cluster client at concrete inputs. A `double` is a number of tenths of a kilohertz here,
-- read from digits, a point and a digit.
use ak.Base.{
  ℕ, ◌+◌, ◌-◌, ◌*◌, ◌≡◌, refl, true, false, Option, none, some, List, [], ◌∷◌, ◌++◌, arith, drop,
}
use ak.Base.Int.{pos}
use ak.Base.Lines.{split, next_line, lines, drain, put}
use ak.Base.Text.{Bytes, codes, is_digit, equal, is_space, skip_space}
use ak.DxCluster.{
  DxClusterClient, Attempt, spotted, new, connect, disconnect, read_loop, first_connected,
}
use ak.DxCluster.Spot.{DxSpotData, parse_spot}
use ak.Base.Doubles.{Doubles, to_hz}
use ak.DxCluster.Text.{lacks, no_space, ends_well, starts_well, time}
use ak.DxCluster.Print.{IsPrintable, print_spot, parse_spot-print}
use ak.DxCluster.Lines.{read_loop-read_whole, read_whole, stamped, concat, fits}
use ak.DxCluster.Reconnecting.{reconnect_terminates}

read_tenths : ℕ → Bytes → Option (ℕ × Bytes)
read_tenths acc [] = none
read_tenths acc (x ∷ []) = none
read_tenths acc (x ∷ y ∷ more) = elim (is_digit x) [
  | true ↦ read_tenths (acc * 10 + (x - b'0')) (y ∷ more)
  | false ↦ some (acc * 10 + (y - b'0'), more)
]

tenths : Doubles
unfolding read_tenths skip_space
tenths = record {
  Double = ℕ;
  read = λ t. read_tenths 0 (skip_space t);
  stod = λ t. none;
  of_int = λ z. 0;
  divided = λ x y. x;
  to_int = λ x. pos x;
  times = λ x y. x * y;
  plus = λ x y. x + y;
  thousand = 100;
  half = 0;
  to_int64 = λ x. pos x;
}

abbrev spotter : Bytes
spotter = codes "W1AW"

abbrev call : Bytes
call = codes "K4XYZ"

abbrev line : Bytes
line =
    print_spot spotter (codes "     14225.0") 1 call 7 (codes "CQ CQ CQ") 14
      (time b'1' b'2' b'3' b'4')

line_lem : line ≡ codes "DX de W1AW:     14225.0  K4XYZ        CQ CQ CQ              1234Z"
line_lem = refl

abbrev spot : DxSpotData
spot = record {
  callsign = call;
  frequency_hz = pos 14225000;
  spotter = spotter;
  comment = codes "CQ CQ CQ";
  timestamp = pos 7;
}

parse_line : parse_spot tenths (pos 7) line ≡ some spot
unfolding parse_spot tenths equal is_space
parse_line = refl

printable : IsPrintable spotter call (codes "CQ CQ CQ") b'1' b'2' b'3' b'4'
unfolding lacks no_space ends_well starts_well is_space
printable = record {
  no_colon = refl;
  spotter_ends = refl;
  spotter_size = ground arith;
  callsign_word = refl;
  callsign_some = ground arith;
  comment_starts = refl;
  comment_ends = refl;
  one_line = refl;
  digits = (refl, refl, refl, refl);
}

parse_spot-print_example : parse_spot tenths (pos 7) line ≡ some spot
unfolding tenths to_hz is_space
parse_spot-print_example =
    parse_spot-print tenths (pos 7) 142250 spotter (codes "     14225.0") call (codes "CQ CQ CQ") 1
      7 14 b'1' b'2' b'3' b'4' (λ more. refl) printable (ground arith)

abbrev listening : DxClusterClient
listening = record new {
  fd = some 3;
  connected = true;
  running = true;
  joinable = true;
  spot_cb = true;
}

abbrev halves : List Bytes
halves = codes "hello\r\nDX de W1AW:     142" ∷ (drop 19 line ++ (b'\r' ∷ b'\n' ∷ b'D' ∷ [])) ∷ []

read_loop-read_whole_example :
    read_loop tenths (stamped (pos 7) halves) listening
    ≡ read_whole tenths (pos 7) (concat halves) listening
unfolding next_line fits split put
read_loop-read_whole_example = read_loop-read_whole tenths (pos 7) halves listening refl refl

read_halves : (read_loop tenths (stamped (pos 7) halves) listening).0 ≡ spotted spot ∷ []
unfolding read_loop stamped tenths lines drain next_line parse_spot equal is_space
read_halves = refl

abbrev addresses : List Attempt
addresses = record { socket = some 4; begun = true; polled = true; no_error = true } ∷ []

reconnect_terminates_example :
    let lost = (read_loop tenths [] listening).1 in
    (connect (some addresses) call lost ≡ none)
    × (q : DxClusterClient) × (connect (some addresses) call (disconnect lost) ≡ some (q, pos 0))
    × (q.fd ≡ some 4)
    × (q.connected ≡ true)
    × (q.line_buffer ≡ [])
unfolding first_connected
reconnect_terminates_example = reconnect_terminates tenths [] listening addresses call 4 refl refl
