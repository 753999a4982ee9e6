-- ===== src/Codec/Tests.antt =====
-- The wrappers at a library whose objects count their calls.
use ak.Base.{ℕ, suc, ◌≤◌, ◌≡◌, refl, some, none, List, [], ◌∷◌}
use ak.Base.Int.{pos, negsuc}
use ak.Codec.{Libopus}
use ak.Codec.Decoder
use ak.Codec.Encoder
use ak.Codec.Lifetime.{
  DecoderCall, EncoderCall, decode, decode_plc, encode, set_bitrate, run_decoder, run_encoder,
  lifetime,
}

abbrev counting : Libopus
counting = record {
  Decoder = ℕ;
  Encoder = ℕ;
  decoder_create = λ rate channels. (pos 0, some 0);
  decode = λ packet n k d. (suc d, k, []);
  decoder_ctl = λ request d. 0;
  encoder_create = λ rate channels. (negsuc 0, none);
  encode = λ pcm k n e. (suc e, pos 1, []);
  encoder_ctl = λ request e. e;
}

not_initialized : (Decoder.decode counting (1 ∷ []) (pos 960) (Decoder.new counting)).0.0 ≡ negsuc 0
unfolding Decoder.decode Decoder.new
not_initialized = refl

abbrev decoder_calls : List DecoderCall
decoder_calls =
    decode (1 ∷ []) (pos 960)
    ∷ DecoderCall.init
    ∷ decode_plc (pos 960)
    ∷ DecoderCall.init
    ∷ DecoderCall.reset
    ∷ []

abbrev encoder_calls : List EncoderCall
encoder_calls = EncoderCall.init ∷ encode [] (pos 480) (pos 4000) ∷ set_bitrate (pos 12000) ∷ []

-- One decoder is made and given back; the library has no encoder.
lifetime_at_calls :
    let d = Decoder.destroy counting (run_decoder counting decoder_calls (Decoder.new counting)) in
    let e = Encoder.destroy counting (run_encoder counting encoder_calls (Encoder.new counting)) in
    (d.created ≤ 1) × (d.destroyed ≡ d.created) × (e.created ≤ 1) × (e.destroyed ≡ e.created)
lifetime_at_calls = lifetime counting decoder_calls encoder_calls
