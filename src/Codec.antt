-- ===== src/Codec.antt =====
-- core/src/audio/opus_decoder.{h,cpp} and opus_encoder.{h,cpp}: the objects round a decoder and an
-- encoder of libopus, which is an argument. A null pointer is `none`.
pub mod Decoder
pub mod Encoder
pub mod Lifetime
mod Tests
use ak.Base.{ℕ, suc, Bool, true, false, Option, none, some, List}
use ak.Base.Int.{ℤ, pos, negsuc}
use ak.Base.Text.{Bytes}

-- The requests of `opus_encoder_ctl` and `opus_decoder_ctl` that the code makes.
pub data Request : Type 0 where
  set_bitrate set_complexity set_dtx : ℤ → Request
  set_signal_voice reset_state : Request

-- A created object comes with an error code, a call with the object behind it, its result, and what
-- it wrote to the output.
pub record Libopus : Type 1 where
  pub Decoder : Type 0
  pub Encoder : Type 0
  pub decoder_create : ℕ → ℕ → ℤ × Option Decoder
  pub decode : Option Bytes → ℕ → ℤ → Decoder → Decoder × ℤ × List ℤ
  pub decoder_ctl : Request → Decoder → Decoder
  pub encoder_create : ℕ → ℕ → ℤ × Option Encoder
  pub encode : List ℤ → ℤ → ℤ → Encoder → Encoder × ℤ × Bytes
  pub encoder_ctl : Request → Encoder → Encoder

-- `m_decoder != nullptr`
unfoldable pub exists : {A : Type 0} → Option A → Bool
exists none = false
exists (some a) = true

unfoldable pub count : {A : Type 0} → Option A → ℕ → ℕ
count none n = n
count (some a) n = suc n

module _ (l : Libopus) where
  -- The member, and how many objects of the library were made and given back.
  pub record OpusDecoder : Type 0 where
    pub decoder : Option l.Decoder
    pub created : ℕ
    pub destroyed : ℕ

  pub record OpusEncoder : Type 0 where
    pub encoder : Option l.Encoder
    pub frame_size : ℤ
    pub created : ℕ
    pub destroyed : ℕ
