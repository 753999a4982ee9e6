-- ===== src/RadioUtils.antt =====
-- core/src/utils/radio_utils.{h,cpp}: bands, tuning rates, span tiers, the S-meter scale,
-- the clamping of the spectrum's centre, the text of frequencies, and the conversions of pixels and
-- of frequencies in kHz, which compute in `double`.
pub mod Bands
pub mod Tuning
pub mod Spans
pub mod Smeter
pub mod Center
pub mod Frequency
pub mod Conversions
mod Tests
