-- ===== src/Protocol.antt =====
-- core/src/network/protocol.{h,cpp}: the framing of the byte stream that the radio and the program
-- exchange. Bytes are numbers below 256. What the frame callback is called with is returned, in
-- order, as a list of frames.
pub mod Seek
pub mod Step
pub mod Runs
pub mod Chunks
pub mod Bounds
pub mod RoundTrip
pub mod Stream
mod Tests
use mathlib.Core.Option
use ak.Base.{
  ℕ, zero, suc, ◌+◌, ◌-◌, ◌*◌, ◌/◌, ◌%◌, ◌^◌, Bool, true, false, ◌&&◌, ◌||◌, List, [], ◌∷◌, ◌++◌,
  none, some, ltb, ◌==◌, if◌then◌else◌, length, take, drop,
}
use mathlib.Core.Option.{Option}

abbrev pub Bytes : Type 0
Bytes = List ℕ

abbrev pub start_marker : Bytes
start_marker = 0xFE ∷ 0xFD ∷ 0xFC ∷ 0xFB ∷ []

abbrev pub end_marker : Bytes
end_marker = 0x00 ∷ 0x00 ∷ 0x00 ∷ 0x00 ∷ []

abbrev pub max_frame_size : ℕ
max_frame_size = 1024 * 1024

-- `PayloadType`: the values of the enumeration. A received type byte may be any other byte.
abbrev pub type_cat_command : ℕ
type_cat_command = 0x01

abbrev pub type_cat_response : ℕ
type_cat_response = 0x02

abbrev pub type_audio_data : ℕ
type_audio_data = 0x03

abbrev pub type_spectrum : ℕ
type_spectrum = 0x04

abbrev pub type_mini_pan : ℕ
type_mini_pan = 0x05

pub data ParseState : Type 0 where
  seeking_start reading_length reading_payload reading_end : ParseState

-- What one call of the frame callback is given.
pub record Frame : Type 0 where
  pub kind : ℕ
  pub payload : Bytes

pub record Protocol : Type 0 where
  pub state : ParseState
  pub buffer : Bytes
  pub expected_length : ℕ
  pub start_match_count : ℕ
  pub end_match_count : ℕ
  -- whether `m_frameCb` is set
  pub has_callback : Bool

abbrev pub initial : Protocol
initial = record {
  state = seeking_start;
  buffer = [];
  expected_length = 0;
  start_match_count = 0;
  end_match_count = 0;
  has_callback = false;
}

unfoldable pub set_frame_callback : Protocol → Protocol
set_frame_callback p = record p { has_callback = true }

unfoldable pub reset : Protocol → Protocol
reset p = record p {
  state = seeking_start;
  buffer = [];
  expected_length = 0;
  start_match_count = 0;
  end_match_count = 0;
}

-- The four bytes of a `uint32_t`, most significant first; `x & 0xFF` is the remainder by 256.
unfoldable pub big_endian : ℕ → Bytes
big_endian n = n / 2 ^ 24 % 256 ∷ n / 2 ^ 16 % 256 ∷ n / 2 ^ 8 % 256 ∷ n % 256 ∷ []

unfoldable pub encode : ℕ → Bytes → Bytes
encode kind payload =
    start_marker ++ (big_endian ((1 + length payload) % 2 ^ 32) ++ (kind ∷ (payload ++ end_marker)))

unfoldable pub encode_cat : Bytes → Bytes
encode_cat command = encode type_cat_command command

-- Whether `marker` stands at the front of the bytes.
unfoldable pub begins_with : Bytes → Bytes → Bool
begins_with [] ys = true
begins_with (x ∷ xs) [] = false
begins_with (x ∷ xs) (y ∷ ys) = y == x && begins_with xs ys

-- The position of the first start marker.
unfoldable pub find_start_marker : Bytes → Option ℕ
find_start_marker [] = none
find_start_marker (b ∷ bs) =
    if begins_with start_marker (b ∷ bs) then some 0 else Option.map suc (find_start_marker bs)

-- The `uint32_t` that four bytes spell; the shifted bytes have no bit in common, so that `|` is the
-- sum.
unfoldable pub read_length : Bytes → ℕ
read_length (a ∷ b ∷ c ∷ d ∷ rest) = a * 2 ^ 24 + b * 2 ^ 16 + c * 2 ^ 8 + d
read_length _ = 0

-- How a round of the loop in `processBuffer` ends: by `return`, or by `break` out of the switch,
-- with the frames dispatched.
pub data Outcome : Type 0 where
  wait : Protocol → Outcome
  advance : Protocol → List Frame → Outcome

-- `m_buffer.erase(begin, end - 3)` if there are more than three bytes.
unfoldable pub keep_last3 : Bytes → Bytes
keep_last3 b = if ltb 3 (length b) then drop (length b - 3) b else b

-- The frame that a payload is dispatched as, if a callback is set and the payload is not empty.
unfoldable pub dispatch : Bool → Bytes → List Frame
dispatch false payload = []
dispatch true [] = []
dispatch true (kind ∷ rest) = record { kind = kind; payload = rest } ∷ []

unfoldable pub switch : ParseState → Protocol → Outcome
switch seeking_start p = elim (find_start_marker p.buffer) [
  | none ↦ wait (record p { buffer = keep_last3 p.buffer })
  | some i ↦ advance (record p { buffer = drop (i + 4) p.buffer; state = reading_length }) []
]
switch reading_length p =
    if ltb (length p.buffer) 4
    then wait p
    else (let n = read_length p.buffer in
        let rest = drop 4 p.buffer in
        if n == 0 || ltb max_frame_size n
        then advance (record p { buffer = rest; expected_length = n; state = seeking_start }) []
        else advance (record p { buffer = rest; expected_length = n; state = reading_payload }) [])
switch reading_payload p =
    if ltb (length p.buffer) p.expected_length
    then wait p
    else advance (record p { buffer = drop p.expected_length p.buffer; state = reading_end })
        (dispatch p.has_callback (take p.expected_length p.buffer))
switch reading_end p =
    if ltb (length p.buffer) 4
    then wait p
    else advance (record p { buffer = drop 4 p.buffer; state = seeking_start }) []

-- One round of `while (!m_buffer.empty()) switch (m_state) ...`; the loop's own exit is a `wait`.
unfoldable pub step : Protocol → Outcome
step p = elim p.buffer [ [] ↦ wait p | _ ∷ _ ↦ switch p.state p ]

-- The loop on fuel; `none` means that the fuel ran out.
unfoldable pub process : ℕ → Protocol → Option (Protocol × List Frame)
process zero p = none
process (suc n) p = elim (step p) [
  | wait q ↦ some (q, [])
  | advance q fs ↦ Option.map (λ r. (r.0, fs ++ r.1)) (process n q)
]

unfoldable pub process_buffer : Protocol → Option (Protocol × List Frame)
process_buffer p = process (2 * length p.buffer + 2) p

-- `m_buffer.insert(m_buffer.end(), data, data + len)`
unfoldable pub append_data : Protocol → Bytes → Protocol
append_data p bytes = record p { buffer = p.buffer ++ bytes }

unfoldable pub feed_data : Protocol → Bytes → Option (Protocol × List Frame)
feed_data p bytes =
    let q = append_data p bytes in
    if ltb (max_frame_size * 2) (length q.buffer) then some (reset q, []) else process_buffer q
