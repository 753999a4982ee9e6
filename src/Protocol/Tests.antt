-- ===== src/Protocol/Tests.antt =====
-- The framing run on small streams, and the theorems at concrete inputs.
use ak.Base.{◌≡◌, refl, true, List, [], ◌∷◌, ◌++◌, none, some, arith, length, ◌<◌}
use ak.Protocol.{
  Bytes, Protocol, seeking_start, reading_payload, Frame, initial, set_frame_callback, reset,
  encode, encode_cat, feed_data, process_buffer, append_data, process, step, switch, begins_with,
  find_start_marker, read_length, keep_last3, dispatch, big_endian, max_frame_size,
}
use ak.Protocol.Bounds.{IsQuiet, feed_data-IsQuiet}
use ak.Protocol.Chunks.{feed_all, feed_all-process_buffer, concat}
use ak.Protocol.RoundTrip.{encode_all}
use ak.Protocol.Stream.{feed_all-encode_all}

abbrev listening : Protocol
listening = record initial { has_callback = true }

abbrev hello : Frame
hello = record { kind = 2; payload = b'F' ∷ b'A' ∷ [] }

abbrev ping : Frame
ping = record { kind = 6; payload = [] }

abbrev hello_bytes : Bytes
hello_bytes = 0xFE ∷ 0xFD ∷ 0xFC ∷ 0xFB ∷ 0 ∷ 0 ∷ 0 ∷ 3 ∷ 2 ∷ b'F' ∷ b'A' ∷ 0 ∷ 0 ∷ 0 ∷ 0 ∷ []

encode-hello : encode 2 (b'F' ∷ b'A' ∷ []) ≡ hello_bytes
unfolding encode big_endian
encode-hello = refl

encode_cat-fa : encode_cat (b'F' ∷ []) ≡ encode 1 (b'F' ∷ [])
unfolding encode_cat
encode_cat-fa = refl

-- Noise, then two frames, cut inside the first marker and inside the first payload.
abbrev reads : List Bytes
reads =
    (7 ∷ 0xFE ∷ 0xFD ∷ [])
    ∷ (0xFC ∷ 0xFB ∷ 0 ∷ 0 ∷ 0 ∷ 3 ∷ 2 ∷ b'F' ∷ [])
    ∷ (b'A' ∷ 0 ∷ 0 ∷ 0 ∷ 0 ∷ 0xFE ∷ 0xFD ∷ 0xFC ∷ 0xFB ∷ 0 ∷ 0 ∷ 0 ∷ 1 ∷ 6 ∷ 0 ∷ [])
    ∷ (0 ∷ 0 ∷ 0 ∷ [])
    ∷ []

reads_run :
    feed_all listening reads ≡ some (record listening { expected_length = 1 }, hello ∷ ping ∷ [])
unfolding feed_all feed_data append_data process_buffer process step switch find_start_marker
    begins_with read_length keep_last3 dispatch
reads_run = refl

-- A length of zero is refused, and the search starts again behind it.
zero_length_run :
    feed_data listening (0xFE ∷ 0xFD ∷ 0xFC ∷ 0xFB ∷ 0 ∷ 0 ∷ 0 ∷ 0 ∷ hello_bytes)
    ≡ some (record listening { expected_length = 3 }, hello ∷ [])
unfolding feed_data append_data process_buffer process step switch find_start_marker begins_with
    read_length keep_last3 dispatch
zero_length_run = refl

-- Without a callback nothing is dispatched.
silent_run : feed_data initial hello_bytes ≡ some (record initial { expected_length = 3 }, [])
unfolding feed_data append_data process_buffer process step switch find_start_marker begins_with
    read_length keep_last3 dispatch
silent_run = refl

reset-listening : reset (set_frame_callback initial) ≡ listening
unfolding reset set_frame_callback
reset-listening = refl

-- In the middle of a payload.
abbrev waiting : Protocol
waiting = record listening { state = reading_payload; buffer = 2 ∷ []; expected_length = 3 }

waiting-IsQuiet : IsQuiet waiting
unfolding step switch
waiting-IsQuiet = record { settled = refl; payload_bound = λ e. omega arith }

feed_data-IsQuiet_example :
    (q : Protocol) × (fs : List Frame) × (feed_data waiting (b'F' ∷ b'A' ∷ []) ≡ some (q, fs))
    × IsQuiet q
    × (length q.buffer < max_frame_size)
feed_data-IsQuiet_example = feed_data-IsQuiet waiting (b'F' ∷ b'A' ∷ []) waiting-IsQuiet

feed_all-process_buffer_example :
    feed_all waiting ((b'F' ∷ []) ∷ (b'A' ∷ 0 ∷ []) ∷ [])
    ≡ process_buffer (append_data waiting (concat ((b'F' ∷ []) ∷ (b'A' ∷ 0 ∷ []) ∷ [])))
feed_all-process_buffer_example =
    feed_all-process_buffer waiting ((b'F' ∷ []) ∷ (b'A' ∷ 0 ∷ []) ∷ []) waiting-IsQuiet
      (omega arith)

noise : find_start_marker (7 ∷ 0xFE ∷ 0xFD ∷ 0xFC ∷ []) ≡ none
unfolding find_start_marker begins_with
noise = refl

reads-concat : concat reads ≡ (7 ∷ []) ++ encode_all (hello ∷ ping ∷ [])
unfolding concat encode_all encode big_endian
reads-concat = refl

feed_all-encode_all_example :
    (q : Protocol) × (feed_all listening reads ≡ some (q, hello ∷ ping ∷ []))
    × ak.Protocol.RoundTrip.IsIdle q
feed_all-encode_all_example =
    feed_all-encode_all listening reads (7 ∷ []) hello (ping ∷ [])
      (record { seeking = refl; empty = refl }) refl noise (omega arith) (omega arith) reads-concat
