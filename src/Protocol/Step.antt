-- ===== src/Protocol/Step.antt =====
-- One round of the loop of `processBuffer` in protocol.cpp: its progress, and bytes that arrive
-- behind those it reads.
use ak.Base.{
  ℕ, ◌+◌, ◌*◌, ◌≤◌, ◌<◌, ◌≡◌, refl, ◌∙◌, sym, List, [], ◌∷◌, ◌++◌, ◌⊎◌, none, arith, inl, inr,
  Option-cases, length, length-append, length-drop,
}
use ak.Protocol.{
  Bytes, Protocol, ParseState, seeking_start, reading_length, reading_payload, reading_end, Frame,
  wait, advance, switch, step, append_data, read_length, find_start_marker, keep_last3,
}
use ak.Protocol.Seek.{
  after_marker, after_marker-keep_last3, keep_last3-append, keep_last3-nil, find_start_marker_bound,
  find_start_marker-append, drop-append, take-append,
}

-- Rounds left: two for each byte, and one where a payload of length zero might be read.
abbrev pub payload_round : ParseState → ℕ
payload_round reading_payload = 1
payload_round _ = 0

abbrev pub measure : Protocol → ℕ
measure p = 2 * length p.buffer + payload_round p.state

switch-measure :
    (s : ParseState) (p : Protocol) {q : Protocol} {fs : List Frame}
    → p.state ≡ s
    → 0 < length p.buffer
    → switch s p ≡ advance q fs
    → measure q < measure p
unfolding switch
switch-measure seeking_start p e h a = elim (Option-cases (find_start_marker p.buffer)) [
  | inl n ↦ ground arith
  | inr (i, f) ↦ ground (arith, find_start_marker_bound p.buffer i f, length-drop (i + 4) p.buffer)
]
switch-measure reading_length p e h a = ground (arith, length-drop 4 p.buffer)
switch-measure reading_payload p e h a = ground (arith, length-drop p.expected_length p.buffer)
switch-measure reading_end p e h a = ground (arith, length-drop 4 p.buffer)

-- The measure falls in each round that does not return.
pub step-measure :
    (p : Protocol) {q : Protocol} {fs : List Frame} → step p ≡ advance q fs → measure q < measure p
unfolding step
step-measure p {q} {fs} a = ground (arith, switch-measure p.state p {q = q} {fs = fs} refl)

read_length-append : (xs ys : Bytes) → 4 ≤ length xs → read_length (xs ++ ys) ≡ read_length xs
unfolding read_length
read_length-append (a ∷ b ∷ c ∷ d ∷ xs) ys h = refl
read_length-append [] ys h = absurd (omega arith)
read_length-append (a ∷ []) ys h = absurd (omega arith)
read_length-append (a ∷ b ∷ []) ys h = absurd (omega arith)
read_length-append (a ∷ b ∷ c ∷ []) ys h = absurd (omega arith)

-- A round that goes on makes the same step when more bytes stand behind.
switch-append :
    (s : ParseState) (p : Protocol) (b : Bytes) {q : Protocol} {fs : List Frame}
    → switch s p ≡ advance q fs
    → switch s (append_data p b) ≡ advance (append_data q b) fs
unfolding switch append_data
switch-append seeking_start p b a = elim (Option-cases (find_start_marker p.buffer)) [
  | inl n ↦ ground arith
  | inr (i, f) ↦ ground (
    arith,
    find_start_marker_bound p.buffer i f,
    find_start_marker-append p.buffer b i f,
    drop-append (i + 4) p.buffer b,
  )
]
switch-append reading_length p b a =
    ground
      (arith, length-append p.buffer b, drop-append 4 p.buffer b, read_length-append p.buffer b)
switch-append reading_payload p b a = ground (
  arith,
  length-append p.buffer b,
  drop-append p.expected_length p.buffer b,
  take-append p.expected_length p.buffer b,
)
switch-append reading_end p b a = ground (arith, length-append p.buffer b, drop-append 4 p.buffer b)

pub step-append :
    (p : Protocol) (b : Bytes) {q : Protocol} {fs : List Frame}
    → step p ≡ advance q fs
    → step (append_data p b) ≡ advance (append_data q b) fs
unfolding step append_data
step-append p b {q} {fs} a = ground (arith, switch-append p.state p b {q = q} {fs = fs})

-- A round that returns leaves the parser as it was, but for the bytes that a search gives up.
pub step_wait :
    (p : Protocol) {q : Protocol}
    → step p ≡ wait q
    → (q ≡ p)
      ⊎ ((p.state ≡ seeking_start)
          × (find_start_marker p.buffer ≡ none)
          × (q ≡ record p { buffer = keep_last3 p.buffer }))
unfolding step switch
step_wait p a = ground arith

find_start_marker-nil : find_start_marker [] ≡ none
unfolding find_start_marker
find_start_marker-nil = refl

-- The loop's test makes no difference to a search.
pub step_seeking : (p : Protocol) → p.state ≡ seeking_start → step p ≡ switch seeking_start p
unfolding step switch
step_seeking p e = ground (arith, keep_last3-nil, find_start_marker-nil)

-- A search goes by what stands behind the marker and by the last three bytes.
seek_eq :
    (p : Protocol) (xs ys : Bytes)
    → after_marker xs ≡ after_marker ys
    → keep_last3 xs ≡ keep_last3 ys
    → switch seeking_start (record p { buffer = xs })
      ≡ switch seeking_start (record p { buffer = ys })
unfolding switch after_marker
seek_eq p xs ys a k = ground arith

-- The search of the next call finds what it would have found in the whole buffer.
pub step-keep_last3 :
    (p : Protocol) (b : Bytes)
    → p.state ≡ seeking_start
    → find_start_marker p.buffer ≡ none
    → step (append_data (record p { buffer = keep_last3 p.buffer }) b) ≡ step (append_data p b)
unfolding append_data
step-keep_last3 p b e n =
    step_seeking (append_data (record p { buffer = keep_last3 p.buffer }) b) e
    ∙ seek_eq p (keep_last3 p.buffer ++ b) (p.buffer ++ b) (after_marker-keep_last3 p.buffer b n)
        (keep_last3-append p.buffer b)
    ∙ sym (step_seeking (append_data p b) e)
