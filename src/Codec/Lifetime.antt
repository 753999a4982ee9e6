-- ===== src/Codec/Lifetime.antt =====
-- The objects of libopus that the wrappers make, and give back.
use ak.Base.{ℕ, ◌≤◌, ◌≡◌, refl, sym, ap, ◌∙◌, Option, none, some, List, [], ◌∷◌, arith}
use mathlib.Core.Option
use ak.Base.Int.{ℤ}
use ak.Base.Text.{Bytes}
use ak.Codec.{Libopus, OpusDecoder, OpusEncoder, count}
use ak.Codec.Decoder
use ak.Codec.Encoder

pub data DecoderCall : Type 0 where
  init : DecoderCall
  decode : Bytes → ℤ → DecoderCall
  decode_plc : ℤ → DecoderCall
  reset : DecoderCall

pub data EncoderCall : Type 0 where
  init : EncoderCall
  encode : List ℤ → ℤ → ℤ → EncoderCall
  set_bitrate set_frame_size : ℤ → EncoderCall
  reset : EncoderCall

count-one : {A : Type 0} (o : Option A) → count o 0 ≤ 1
unfolding count
count-one none = omega arith
count-one (some a) = omega arith

count-map : {A : Type 0} (g : A → A) (o : Option A) → count (Option.map g o) 0 ≡ count o 0
unfolding count
count-map g none = refl
count-map g (some a) = refl

count-zero : {A : Type 0} (o : Option A) (n : ℕ) → n ≡ 0 → count o n ≡ count o 0
count-zero o n h = ap (count o) h

module _ (l : Libopus) where
  unfoldable pub call_decoder : DecoderCall → OpusDecoder l → OpusDecoder l
  call_decoder DecoderCall.init d = (Decoder.init l d).1
  call_decoder (decode packet max_frames) d = (Decoder.decode l packet max_frames d).1
  call_decoder (decode_plc max_frames) d = (Decoder.decode_plc l max_frames d).1
  call_decoder DecoderCall.reset d = Decoder.reset l d

  unfoldable pub call_encoder : EncoderCall → OpusEncoder l → OpusEncoder l
  call_encoder EncoderCall.init e = (Encoder.init l e).1
  call_encoder (encode pcm frame_size max_output) e =
      (Encoder.encode l pcm frame_size max_output e).1
  call_encoder (set_bitrate bitrate) e = Encoder.set_bitrate_to l bitrate e
  call_encoder (set_frame_size frame_size) e = Encoder.set_frame_size l frame_size e
  call_encoder EncoderCall.reset e = Encoder.reset l e

  unfoldable pub run_decoder : List DecoderCall → OpusDecoder l → OpusDecoder l
  unfolding call_decoder
  run_decoder [] d = d
  run_decoder (c ∷ cs) d = run_decoder cs (call_decoder c d)

  unfoldable pub run_encoder : List EncoderCall → OpusEncoder l → OpusEncoder l
  unfolding call_encoder
  run_encoder [] e = e
  run_encoder (c ∷ cs) e = run_encoder cs (call_encoder c e)

  -- Before the destructor the objects made are the one that the member points to, if any.
  abbrev DecoderAlive : OpusDecoder l → Type 0
  DecoderAlive d = (d.created ≡ count d.decoder 0) × (d.destroyed ≡ 0)

  abbrev EncoderAlive : OpusEncoder l → Type 0
  EncoderAlive e = (e.created ≡ count e.encoder 0) × (e.destroyed ≡ 0)

  call_decoder-Alive :
      (c : DecoderCall) (d : OpusDecoder l) → DecoderAlive d → DecoderAlive (call_decoder c d)
  unfolding call_decoder Decoder.init Decoder.decode Decoder.decode_plc Decoder.call Decoder.reset
      count
  call_decoder-Alive DecoderCall.init d h = ground arith
  call_decoder-Alive (decode packet n) d h = ground arith
  call_decoder-Alive (decode_plc n) d h = ground arith
  call_decoder-Alive DecoderCall.reset d h = (h.0 ∙ sym (count-map _ d.decoder), h.1)

  call_encoder-Alive :
      (c : EncoderCall) (e : OpusEncoder l) → EncoderAlive e → EncoderAlive (call_encoder c e)
  unfolding call_encoder Encoder.init Encoder.made Encoder.encode Encoder.set_bitrate_to
      Encoder.set_frame_size Encoder.reset count
  call_encoder-Alive EncoderCall.init e h = ground arith
  call_encoder-Alive (encode pcm k n) e h = ground arith
  call_encoder-Alive (set_bitrate b) e h = (h.0 ∙ sym (count-map _ e.encoder), h.1)
  call_encoder-Alive (set_frame_size n) e h = h
  call_encoder-Alive EncoderCall.reset e h = (h.0 ∙ sym (count-map _ e.encoder), h.1)

  run_decoder-Alive :
      (cs : List DecoderCall) (d : OpusDecoder l) → DecoderAlive d → DecoderAlive (run_decoder cs d)
  unfolding run_decoder
  run_decoder-Alive [] d h = h
  run_decoder-Alive (c ∷ cs) d h =
      run_decoder-Alive cs (call_decoder c d) (call_decoder-Alive c d h)

  run_encoder-Alive :
      (cs : List EncoderCall) (e : OpusEncoder l) → EncoderAlive e → EncoderAlive (run_encoder cs e)
  unfolding run_encoder
  run_encoder-Alive [] e h = h
  run_encoder-Alive (c ∷ cs) e h =
      run_encoder-Alive cs (call_encoder c e) (call_encoder-Alive c e h)

  -- Over every sequence of calls, `init` repeated and failing included, a decoder and an encoder
  -- make at most one object of the library each, and with the destructor give back exactly those
  -- that they made.
  pub lifetime :
      (cs : List DecoderCall) (ds : List EncoderCall)
      → let d = Decoder.destroy l (run_decoder cs (Decoder.new l)) in
        let e = Encoder.destroy l (run_encoder ds (Encoder.new l)) in
        (d.created ≤ 1) × (d.destroyed ≡ d.created) × (e.created ≤ 1) × (e.destroyed ≡ e.created)
  unfolding Decoder.destroy Encoder.destroy Decoder.new Encoder.new count
  lifetime cs ds =
      let d = run_decoder cs (Decoder.new l) in
      let e = run_encoder ds (Encoder.new l) in
      let h = run_decoder-Alive cs (Decoder.new l) (refl, refl) in
      let k = run_encoder-Alive ds (Encoder.new l) (refl, refl) in
      (
        omega (arith, h.0, count-one d.decoder),
        count-zero d.decoder d.destroyed h.1 ∙ sym h.0,
        omega (arith, k.0, count-one e.encoder),
        count-zero e.encoder e.destroyed k.1 ∙ sym k.0,
      )
