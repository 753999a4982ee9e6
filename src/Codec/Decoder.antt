-- ===== src/Codec/Decoder.antt =====
-- core/src/audio/opus_decoder.cpp
use ak.Base.{ℕ, Bool, true, ◌&&◌, Option, none, some, length, List, []}
use mathlib.Core.Option
use ak.Base.Int.{ℤ, negsuc}
use ak.Base.Text.{Bytes}
use ak.RadioState.{is_zero}
use ak.Codec.{Libopus, reset_state, OpusDecoder, exists, count}

module _ (l : Libopus) where
  unfoldable pub new : OpusDecoder l
  new = record { decoder = none; created = 0; destroyed = 0 }

  -- A decoder for 12000 samples a second of two channels.
  unfoldable pub init : OpusDecoder l → Bool × OpusDecoder l
  unfolding exists count
  init d = elim d.decoder [
    | some x ↦ (true, d)
    | none ↦
        let r = l.decoder_create 12000 2 in
        (is_zero r.0 && exists r.1, record d { decoder = r.1; created = count r.1 d.created })
  ]

  -- The result, and what was written to `pcm_out`.
  unfoldable pub call : Option Bytes → ℕ → ℤ → OpusDecoder l → (ℤ × List ℤ) × OpusDecoder l
  call packet packet_len max_frames d = elim d.decoder [
    | none ↦ ((negsuc 0, []), d)
    | some x ↦
        let r = l.decode packet packet_len max_frames x in
        ((r.1, r.2), record d { decoder = some (r.0) })
  ]

  unfoldable pub decode : Bytes → ℤ → OpusDecoder l → (ℤ × List ℤ) × OpusDecoder l
  unfolding call
  decode packet max_frames = call (some packet) (length packet) max_frames

  -- Packet loss concealment.
  unfoldable pub decode_plc : ℤ → OpusDecoder l → (ℤ × List ℤ) × OpusDecoder l
  unfolding call
  decode_plc max_frames = call none 0 max_frames

  unfoldable pub reset : OpusDecoder l → OpusDecoder l
  reset d = record d { decoder = Option.map (l.decoder_ctl reset_state) d.decoder }

  unfoldable pub destroy : OpusDecoder l → OpusDecoder l
  unfolding count
  destroy d = record d { decoder = none; destroyed = count d.decoder d.destroyed }
