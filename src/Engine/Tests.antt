-- ===== src/Engine/Tests.antt =====
-- The engine at concrete inputs.
use ak.Base.{◌≡◌, refl, true, false, ◌⊎◌, some, none, List, [], ◌∷◌, ◌++◌, take, drop, arith}
use ak.Base.Int.{ℤ, pos}
use ak.Base.Text.{Bytes, codes, print_padded, padded, decimal}
use ak.RadioState.{initial}
use ak.RadioState.Setters
use ak.RadioState.Invariant.{IsValid, initial-IsValid}
use ak.RadioState.Cat.{parse_cat_command}
use ak.RadioUtils.Bands.{get_band_by_id, is_freq_in_band}
use ak.Protocol.{encode, set_frame_callback}
use ak.Protocol
use ak.Protocol.Bounds.{IsQuiet}
use ak.Protocol.Stream.{IsNoise}
use ak.Protocol.Chunks.{Small, concat}
use ak.Engine.Pieces.{on_chunks-same}
use ak.Engine.Reports.{cat_responses, heard_all, on_chunks-reports}
use ak.Protocol.RoundTrip.{encode_all, Fit, IsIdle}
use ak.RadioState.Commands.{parse_all}
use ak.Engine.{Engine, returns, deadlock, new, Target, send_cat, err_invalid_param}
use ak.Engine.Connection.{connect, disconnect, on_disconnected, connection_calls_deadlock}
use ak.TcpClient.Read.{Reading, received, ended}
use ak.Engine.Reading.{Ready, on_chunks}
use ak.Engine.Frames.{Decoder, on_data, on_data-Sound}
use ak.Engine.Commands.{set_frequency, set_mode, set_band, mode, power, notch, band}
use ak.Engine.RoundTrip.{set_frequency_round_trip, set_mode_round_trip}
use ak.Engine.Sent.{asked, entry, tens}
use ak.RadioState.Reports.{print_report, digit}
use ak.Engine.Band.{set_band_lem}

-- A new engine, and one whose client is connected and whose application listens.
abbrev started : Engine
unfolding new set_frame_callback
started = new 10 true

abbrev online : Engine
online = record started { tcp_connected = true; state_cb = true }

abbrev target : Target
target = record { host = codes "k4.local"; port = 9204; psk = []; use_tls = true }

connection_calls_deadlock_example :
    (connect target (pos 0) started ≡ deadlock)
    × (disconnect started ≡ deadlock)
    × (on_disconnected started ≡ deadlock)
connection_calls_deadlock_example = connection_calls_deadlock target (pos 0) started

started-IsQuiet : IsQuiet online.protocol
unfolding new set_frame_callback Protocol.step Protocol.switch
started-IsQuiet = record { settled = refl; payload_bound = λ e. absurd (ground arith) }

abbrev silent : Decoder
silent packet = (0, [])

on_data-Sound_example :
    (q : Engine) × (on_data silent (encode 2 (codes "FA00007040000;")) online ≡ some (returns q))
    × IsQuiet q.protocol
    × (q.cb_locked ≡ false)
    × IsValid q.radio
unfolding started
on_data-Sound_example =
    on_data-Sound silent (encode 2 (codes "FA00007040000;")) online started-IsQuiet refl
      initial-IsValid

-- What is asked for in some calls.
texts_asked :
    (asked (mode (pos 0) (pos 3)) ≡ some (codes "MD7;"))
    × (asked (power (pos 25)) ≡ some (codes "PC025;"))
    × (asked (notch (pos 0) true (pos 1200)) ≡ some (codes "NT1;BP0120;"))
    × (asked (band (pos 99)) ≡ none)
unfolding asked entry digit print_report tens print_padded padded decimal get_band_by_id
texts_asked = (refl, refl, refl, refl)

set_frequency_round_trip_example :
    ((text : Bytes) × (set_frequency (pos 0) (pos 7040000) online ≡ (pos 0, send_cat text online))
      × (parse_cat_command text initial ≡ Setters.set_frequency (pos 0) (pos 7040000) initial))
    × ((text : Bytes) × (set_frequency (pos 1) (pos 7040000) online ≡ (pos 0, send_cat text online))
        × (parse_cat_command text initial ≡ Setters.set_frequency (pos 1) (pos 7040000) initial))
set_frequency_round_trip_example =
    set_frequency_round_trip (pos 7040000) online initial refl (omega arith)

set_mode_round_trip_example :
    (text : Bytes) × (set_mode (pos 1) (pos 3) online ≡ (pos 0, send_cat text online))
    × (parse_cat_command text initial ≡ Setters.set_mode (pos 0) (pos 3) initial)
set_mode_round_trip_example = set_mode_round_trip (pos 1) 3 online initial refl (omega arith)

set_band_lem_example :
    ((freq : ℤ) × (set_band (pos 5) online ≡ set_frequency (pos 0) freq online)
      × (is_freq_in_band freq (pos 5) ≡ true))
    ⊎ ((get_band_by_id (pos 5) ≡ none) × (set_band (pos 5) online ≡ (err_invalid_param, online)))
set_band_lem_example = set_band_lem (pos 5) online refl

abbrev readings : List Reading
readings =
    received (take 5 (encode 2 (codes "FA00007040000;")))
    ∷ received (drop 5 (encode 2 (codes "FA00007040000;")))
    ∷ ended
    ∷ []

online-Ready : Ready online
unfolding started
online-Ready = record { quiet = started-IsQuiet; unlocked = refl; valid = initial-IsValid }

-- The same bytes in two reads and in one.
abbrev two_pieces : List Bytes
two_pieces =
    take 5 (encode 2 (codes "FA00007040000;")) ∷ drop 5 (encode 2 (codes "FA00007040000;")) ∷ []

two_pieces-Small : Small two_pieces
unfolding Protocol.encode Protocol.big_endian
two_pieces-Small = (ground arith, (ground arith, tt))

one_piece-Small : Small (encode 2 (codes "FA00007040000;") ∷ [])
unfolding Protocol.encode Protocol.big_endian
one_piece-Small = (ground arith, tt)

one_stream : concat two_pieces ≡ concat (encode 2 (codes "FA00007040000;") ∷ [])
unfolding concat Protocol.encode Protocol.big_endian
one_stream = refl

on_chunks-same_example :
    on_chunks silent two_pieces online
    ≡ on_chunks silent (encode 2 (codes "FA00007040000;") ∷ []) online
on_chunks-same_example =
    on_chunks-same silent two_pieces (encode 2 (codes "FA00007040000;") ∷ []) online online-Ready
      two_pieces-Small one_piece-Small one_stream

-- Noise, then the reports of a frequency and of a mode, cut inside the first marker.
abbrev two_reports : List Bytes
two_reports = codes "FA00007040000;" ∷ codes "MD3;" ∷ []

abbrev report_stream : Bytes
report_stream = 7 ∷ encode_all (cat_responses two_reports)

abbrev report_reads : List Bytes
report_reads = take 3 report_stream ∷ drop 3 report_stream ∷ []

report_reads-Small : Small report_reads
unfolding encode_all cat_responses Protocol.encode Protocol.big_endian
report_reads-Small = (ground arith, (ground arith, tt))

report_reads-concat : concat report_reads ≡ (7 ∷ []) ++ encode_all (cat_responses two_reports)
unfolding concat encode_all cat_responses Protocol.encode Protocol.big_endian
report_reads-concat = refl

report_prefix-IsNoise : IsNoise (7 ∷ [])
unfolding Protocol.find_start_marker Protocol.begins_with
report_prefix-IsNoise = refl

two_reports-Fit : Fit (cat_responses two_reports)
unfolding cat_responses
two_reports-Fit = omega arith

online-IsIdle : IsIdle online.protocol
unfolding new set_frame_callback
online-IsIdle = record { seeking = refl; empty = refl }

online-callback : online.protocol.has_callback ≡ true
unfolding new set_frame_callback
online-callback = refl

on_chunks-reports_example :
    (q : Engine) × (on_chunks silent report_reads online ≡ some (returns q))
    × IsIdle q.protocol
    × (q.radio ≡ parse_all two_reports online.radio)
    × (q.events ≡ online.events ++ heard_all online.state_cb two_reports online.radio)
on_chunks-reports_example =
    on_chunks-reports silent report_reads (7 ∷ []) (codes "FA00007040000;") (codes "MD3;" ∷ [])
      online online-Ready online-IsIdle online-callback report_prefix-IsNoise two_reports-Fit
      report_reads-Small report_reads-concat
