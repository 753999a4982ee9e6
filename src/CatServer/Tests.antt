-- ===== src/CatServer/Tests.antt =====
-- The server at concrete inputs.
use ak.Base.{◌≡◌, refl, true, false, some, List, [], ◌∷◌, ◌++◌, arith, take, drop}
use ak.Base.Int.{pos}
use ak.Base.Lines.{split, put}
use ak.Base.Text.{Bytes, codes, print_padded, padded, decimal}
use ak.CatServer.Client.{recv_all, recv_all-split, text, terminate, semicolon}
use ak.CatServer.Clients.{
  Sockets, Event, starts, accepts, ends, stops, new, run, IsValid, run-IsValid,
}
use ak.RadioState.{initial}
use ak.RadioState.Setters.{set_smeter, set_power, set_ptt}
use ak.RadioState.Cat.{parse_cat_command}
use ak.CatServer.Answers.{ask, ask_meters}
use ak.CatServer.Relay.{frequency_report, then_frequencies, on_chunks-ask}
use ak.Protocol
use ak.Protocol.{set_frame_callback}
use ak.Protocol.RoundTrip.{encode_all, Fit, IsIdle}
use ak.Protocol.Stream.{IsNoise}
use ak.Protocol.Chunks.{Small, concat}
use ak.RadioState.Invariant.{initial-IsValid}
use ak.Engine
use ak.Engine.{Engine, returns}
use ak.Engine.Frames.{Decoder}
use ak.Engine.Reading.{Ready, on_chunks}
use ak.Engine.Reports.{cat_responses}

-- "FA;MD;S" read in three pieces.
abbrev received : List Bytes
received = codes "F" ∷ codes "A;M" ∷ codes "D;S" ∷ []

recv_all-split_example :
    recv_all [] received
    ≡ (terminate (split semicolon (text received)).0, (split semicolon (text received)).1)
recv_all-split_example =
    recv_all-split [] received (unfold split in refl)
      (unfold split in unfold put in unfold text in omega arith)

ask_meters_example :
    (parse_cat_command (ask (codes "SM;") initial) initial ≡ set_smeter (pos 0) (pos 0) initial)
    × (parse_cat_command (ask (codes "PC;") initial) initial ≡ set_power (pos 10) initial)
    × (parse_cat_command (ask (codes "TQ;") initial) initial ≡ set_ptt false initial)
ask_meters_example = ask_meters initial initial 0 10 refl refl (omega arith) (omega arith)

abbrev all_work : Sockets
all_work = record { socket6 = true; socket4 = true; bind6 = true; bind4 = true; listens = true }

abbrev events : List Event
events = starts all_work 9299 (pos 50) ∷ accepts 7 ∷ accepts 8 ∷ ends 7 ∷ stops ∷ []

new-IsValid : IsValid new
new-IsValid = ground arith

run-IsValid_example : IsValid (run events new)
run-IsValid_example = run-IsValid events new new-IsValid

-- Noise, then the report of a mode and those of both frequencies, cut inside the first marker, for
-- a new engine.
abbrev engine : Engine
unfolding Engine.new set_frame_callback
engine = Engine.new 10 true

engine-Ready : Ready engine
unfolding Engine.new set_frame_callback Protocol.step Protocol.switch
engine-Ready = record {
  quiet = record { settled = refl; payload_bound = λ e. absurd (ground arith) };
  unlocked = refl;
  valid = initial-IsValid;
}

engine-IsIdle : IsIdle engine.protocol × (engine.protocol.has_callback ≡ true)
unfolding Engine.new set_frame_callback
engine-IsIdle = (record { seeking = refl; empty = refl }, refl)

abbrev reports : List Bytes
reports = then_frequencies (codes "MD3;" ∷ []) 7040000 14225000

abbrev stream : Bytes
stream = 7 ∷ encode_all (cat_responses reports)

abbrev reads : List Bytes
reads = take 3 stream ∷ drop 3 stream ∷ []

reads-Small : Small reads
unfolding encode_all cat_responses then_frequencies Protocol.encode Protocol.big_endian print_padded
    padded decimal
reads-Small = (ground arith, (ground arith, tt))

reads-concat : concat reads ≡ (7 ∷ []) ++ encode_all (cat_responses reports)
unfolding concat encode_all cat_responses then_frequencies Protocol.encode Protocol.big_endian
    print_padded padded decimal
reads-concat = refl

prefix-IsNoise : IsNoise (7 ∷ [])
unfolding Protocol.find_start_marker Protocol.begins_with
prefix-IsNoise = refl

reports-Fit : Fit (cat_responses reports)
unfolding cat_responses then_frequencies print_padded padded decimal
reports-Fit = omega arith

abbrev silent : Decoder
silent packet = (0, [])

on_chunks-ask_example :
    (q : Engine) × (on_chunks silent reads engine ≡ some (returns q))
    × (ask (codes "FA;") q.radio ≡ frequency_report (codes "FA") 7040000)
    × (ask (codes "FB;") q.radio ≡ frequency_report (codes "FB") 14225000)
on_chunks-ask_example =
    on_chunks-ask silent reads (7 ∷ []) (codes "MD3;" ∷ []) 7040000 14225000 engine engine-Ready
      engine-IsIdle.0 engine-IsIdle.1 prefix-IsNoise reports-Fit reads-Small reads-concat
      (omega arith) (omega arith)
