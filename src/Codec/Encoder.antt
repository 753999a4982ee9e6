-- ===== src/Codec/Encoder.antt =====
-- core/src/audio/opus_encoder.cpp
use ak.Base.{suc, Bool, true, false, Option, none, some, List, []}
use mathlib.Core.Option
use ak.Base.Int.{ℤ, pos, negsuc}
use ak.Base.Text.{Bytes}
use ak.RadioState.{is_zero}
use ak.Codec.{
  Libopus, set_bitrate, set_complexity, set_dtx, set_signal_voice, reset_state, OpusEncoder, count,
}

module _ (l : Libopus) where
  unfoldable pub new : OpusEncoder l
  new = record { encoder = none; frame_size = pos 480; created = 0; destroyed = 0 }

  -- The settings for voice.
  unfoldable pub configure : l.Encoder → l.Encoder
  configure x = l.encoder_ctl (set_dtx (pos 0)) (
      l.encoder_ctl set_signal_voice
        (l.encoder_ctl (set_complexity (pos 5)) (l.encoder_ctl (set_bitrate (pos 24000)) x)))

  -- Behind `opus_encoder_create`: with an error the object, if there is one, stays the member.
  unfoldable pub made : ℤ → Option l.Encoder → OpusEncoder l → Bool × OpusEncoder l
  unfolding configure
  made error none e = (false, record e { encoder = none })
  made error (some x) e = elim (is_zero error) [
    | true ↦ (true, record e { encoder = some (configure x); created = suc e.created })
    | false ↦ (false, record e { encoder = some x; created = suc e.created })
  ]

  -- An encoder for 12000 samples a second of one channel.
  unfoldable pub init : OpusEncoder l → Bool × OpusEncoder l
  unfolding made
  init e = elim e.encoder [
    | some x ↦ (true, e)
    | none ↦ let r = l.encoder_create 12000 1 in made r.0 r.1 e
  ]

  unfoldable pub encode : List ℤ → ℤ → ℤ → OpusEncoder l → (ℤ × Bytes) × OpusEncoder l
  encode pcm frame_size max_output e = elim e.encoder [
    | none ↦ ((negsuc 0, []), e)
    | some x ↦
        let r = l.encode pcm frame_size max_output x in
        ((r.1, r.2), record e { encoder = some (r.0) })
  ]

  unfoldable pub set_bitrate_to : ℤ → OpusEncoder l → OpusEncoder l
  set_bitrate_to bitrate e = record e {
    encoder = Option.map (l.encoder_ctl (set_bitrate bitrate)) e.encoder;
  }

  unfoldable pub set_frame_size : ℤ → OpusEncoder l → OpusEncoder l
  set_frame_size frame_size e = record e { frame_size = frame_size }

  unfoldable pub reset : OpusEncoder l → OpusEncoder l
  reset e = record e { encoder = Option.map (l.encoder_ctl reset_state) e.encoder }

  unfoldable pub destroy : OpusEncoder l → OpusEncoder l
  unfolding count
  destroy e = record e { encoder = none; destroyed = count e.encoder e.destroyed }
