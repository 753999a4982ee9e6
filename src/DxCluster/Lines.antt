-- ===== src/DxCluster/Lines.antt =====
-- The lines that `readLoop` takes off what it reads.
use mathlib.Core.List.{append_assoc, append-nil}
use ak.Base.{
  ◌+◌, ◌≤◌, ◌≡◌, refl, ap, sym, ◌∙◌, Bool, true, false, ◌&&◌, List, [], ◌∷◌, ◌++◌, ltb, leb, length,
  length-append, arith, inl, inr, Bool-cases, none,
}
use ak.Base.Int.{ℤ}
use ak.Base.Text.{Bytes}
use ak.Base.Lines.{
  split, next_line, split-next_line-none, split-none, lines-split, split-append, length-split,
}
use ak.DxCluster.{
  DxClusterClient, Event, max_buffer_size, take_line, take_lines, read_loop, stop_reading,
}
use ak.Base.Doubles.{Doubles}

unfoldable pub concat : List Bytes → Bytes
concat [] = []
concat (b ∷ bs) = b ++ concat bs

-- The reads of a time in which the clock does not advance.
unfoldable pub stamped : ℤ → List Bytes → List (ℤ × Bytes)
stamped now [] = []
stamped now (b ∷ bs) = (now, b) ∷ stamped now bs

-- No read makes the buffer overflow.
unfoldable pub fits : List Bytes → Bytes → Bool
fits [] buffer = true
fits (b ∷ bs) buffer =
    leb (length buffer + length b) max_buffer_size && fits bs (split b'\n' (buffer ++ b)).1

-- What the whole text makes of the loop.
unfoldable pub read_whole : Doubles → ℤ → Bytes → DxClusterClient → List Event × DxClusterClient
unfolding take_lines stop_reading
read_whole d now text c =
    let r = split b'\n' text in
    let q = stop_reading (record c { line_buffer = r.1 }) in
    (take_lines d now c.spot_cb r.0 ++ q.0, q.1)

-- A round of the loop: the buffer would overflow, or its lines are taken.
overflows : Bytes → DxClusterClient → Bool
overflows b c = ltb max_buffer_size (length c.line_buffer + length b)

abbrev next : Bytes → DxClusterClient → DxClusterClient
next b c = record c { line_buffer = (split b'\n' (c.line_buffer ++ b)).1 }

module _ (d : Doubles) (now : ℤ) (b : Bytes) (reads : List (ℤ × Bytes)) (c : DxClusterClient) where
  read_loop-overflow :
      overflows b c ≡ true
      → read_loop d ((now, b) ∷ reads) c ≡ stop_reading (record c { line_buffer = [] })
  unfolding read_loop overflows
  read_loop-overflow h = ground arith

  read_loop-next :
      overflows b c ≡ false
      → let q = read_loop d reads (next b c) in
        read_loop d ((now, b) ∷ reads) c
        ≡ (take_lines d now c.spot_cb (split b'\n' (c.line_buffer ++ b)).0 ++ q.0, q.1)
  unfolding read_loop overflows
  read_loop-next h = ground (arith, lines-split b'\n' (c.line_buffer ++ b))

-- The loop leaves its thread to be joined, and the client not connected.
pub read_loop_end :
    (d : Doubles) (reads : List (ℤ × Bytes)) (c : DxClusterClient)
    → ((read_loop d reads c).1.joinable ≡ c.joinable) × ((read_loop d reads c).1.connected ≡ false)
unfolding read_loop stop_reading
read_loop_end d [] c = (refl, refl)
read_loop_end d ((now, b) ∷ reads) c = elim (Bool-cases (overflows b c)) [
  | inl t ↦ rw (read_loop-overflow d now b reads c t) (refl, refl)
  | inr f ↦ rw (read_loop-next d now b reads c f) (read_loop_end d reads (next b c))
]

take_lines-append :
    (d : Doubles) (now : ℤ) (cb : Bool) (ls ms : List Bytes)
    → take_lines d now cb (ls ++ ms) ≡ take_lines d now cb ls ++ take_lines d now cb ms
unfolding take_lines
take_lines-append d now cb [] ms = refl
take_lines-append d now cb (l ∷ ls) ms =
    ap (λ t. take_line d now cb l ++ t) (take_lines-append d now cb ls ms)
    ∙ sym (append_assoc (take_line d now cb l) _ _)

-- A read, and then the whole of the rest, is the whole.
read_whole-append :
    (d : Doubles) (now : ℤ) (a b : Bytes) (c : DxClusterClient)
    → let r = split b'\n' a in
      let q = read_whole d now (r.1 ++ b) (record c { line_buffer = r.1 }) in
      (take_lines d now c.spot_cb r.0 ++ q.0, q.1) ≡ read_whole d now (a ++ b) c
unfolding read_whole
read_whole-append d now a b c = rw (split-append b'\n' a b, take_lines-append, append_assoc) refl

-- However the bytes are cut into reads: the spots that are reported, and the text that stays, are
-- those of the whole text, if no read makes the buffer overflow, the buffer held no line end before,
-- and the clock does not advance.
pub read_loop-read_whole :
    (d : Doubles) (now : ℤ) (bs : List Bytes) (c : DxClusterClient)
    → next_line b'\n' c.line_buffer ≡ none
    → fits bs c.line_buffer ≡ true
    → read_loop d (stamped now bs) c ≡ read_whole d now (c.line_buffer ++ concat bs) c
unfolding fits read_loop stamped concat read_whole
read_loop-read_whole d now [] c n h =
    rw (append-nil c.line_buffer, split-next_line-none b'\n' c.line_buffer n)
      (unfold take_lines in refl)
read_loop-read_whole d now (b ∷ bs) c n h =
    read_loop-next d now b (stamped now bs) c (in_bounds h)
    ∙ ap (λ q. (take_lines d now c.spot_cb (split b'\n' (c.line_buffer ++ b)).0 ++ q.0, q.1))
        (read_loop-read_whole d now bs (next b c) (split-none b'\n' (c.line_buffer ++ b)) (rest h))
    ∙ read_whole-append d now (c.line_buffer ++ b) (concat bs) c
    ∙ ap (λ t. read_whole d now t c) (append_assoc c.line_buffer b (concat bs))
  where
    in_bounds : fits (b ∷ bs) c.line_buffer ≡ true → overflows b c ≡ false
    in_bounds h = unfold overflows in ground arith

    rest : fits (b ∷ bs) c.line_buffer ≡ true → fits bs (next b c).line_buffer ≡ true
    rest h = ground arith

next_bounds :
    (b : Bytes) (c : DxClusterClient)
    → overflows b c ≡ false
    → length (next b c).line_buffer ≤ max_buffer_size
unfolding overflows
next_bounds b c h =
    ground (arith, length-split b'\n' (c.line_buffer ++ b), length-append c.line_buffer b)

-- The buffer never holds more than 64 KB between two reads, whatever the node sends, and the loop
-- ends with the client not connected.
pub read_loop_bounds :
    (d : Doubles) (reads : List (ℤ × Bytes)) (c : DxClusterClient)
    → length c.line_buffer ≤ max_buffer_size
    → (length (read_loop d reads c).1.line_buffer ≤ max_buffer_size)
      × ((read_loop d reads c).1.connected ≡ false)
unfolding read_loop stop_reading
read_loop_bounds d [] c h = (h, refl)
read_loop_bounds d ((now, b) ∷ reads) c h = elim (Bool-cases (overflows b c)) [
  | inl t ↦ rw (read_loop-overflow d now b reads c t) (omega arith, refl)
  | inr f ↦
      rw (read_loop-next d now b reads c f)
        (read_loop_bounds d reads (next b c) (next_bounds b c f))
]
