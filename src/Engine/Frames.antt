-- ===== src/Engine/Frames.antt =====
-- `onProtocolFrame` of qk4_engine.cpp, and the path from the socket's bytes to the radio's state.
use mathlib.Core.Option
use mathlib.Core.Path.{subst}
use ak.Base.{
  ℕ, ◌*◌, ◌/◌, ◌≡◌, refl, ap, sym, ◌∙◌, Bool, true, false, ◌&&◌, Option, some, List, [], ◌∷◌, ltb,
  leb, ◌==◌, length, take, if◌then◌else◌,
}
use ak.Base.Int.{ℤ, pos}
use ak.RadioState.{RadioStateData, Change}
use ak.RadioState.Setters.{set_bin_count}
use ak.RadioState.Op.{apply, bin_count}
use ak.RadioState.Invariant.{IsValid, apply-IsValid}
use ak.RadioState.Cat.{parse_cat_command}
use ak.RadioState.Commands.{parse_cat_command-IsValid}
use ak.Protocol.{
  Bytes, Frame, feed_data, type_cat_response, type_audio_data, type_spectrum, type_mini_pan,
}
use ak.Protocol.Bounds.{IsQuiet, feed_data-IsQuiet}
use ak.Engine.{
  Engine, Event, Run, returns, and_then, lock, unlock, log, log_if, on_radio, audio_written,
  audio_decoded, spectrum_received,
}
use ak.Engine.Radio.{on_radio_lem}

-- What the codec makes of a packet: the number of stereo frames (0 if it refuses) and the samples.
abbrev pub Decoder : Type 0
Decoder = Bytes → ℕ × List ℤ

-- `lock_guard` and the call of a callback, if it is set, up to the end of the block.
unfoldable pub call_locked : (Engine → Bool) → Event → Engine → Run Engine
unfolding lock unlock log_if and_then
call_locked callback event e =
    and_then (lock e) (λ l. returns (unlock (log_if (callback l) event l)))

unfoldable pub on_audio : Decoder → Bytes → Engine → Run Engine
unfolding call_locked log
on_audio decode payload e =
    let d = decode payload in
    let pcm = take (d.0 * 2) d.1 in
    if ltb 0 (length payload) && e.decoder_ready
    then if ltb 0 d.0
      then call_locked (λ l. l.audio_cb) (audio_decoded pcm d.0) (log (audio_written pcm) e)
      else returns e
    else returns e

unfoldable pub on_spectrum : Bytes → Engine → Run Engine
unfolding call_locked and_then
on_spectrum payload e =
    let bins = length payload / 4 in
    if leb 4 (length payload)
    then and_then (on_radio (set_bin_count (pos bins)) e)
        (call_locked (λ l. l.spectrum_cb) (spectrum_received payload bins 0))
    else returns e

unfoldable pub on_mini_pan : Bytes → Engine → Run Engine
unfolding call_locked
on_mini_pan payload e =
    if leb 4 (length payload)
    then call_locked (λ l. l.spectrum_cb) (spectrum_received payload (length payload / 4) 1) e
    else returns e

unfoldable pub on_protocol_frame : Decoder → Frame → Engine → Run Engine
unfolding on_audio on_spectrum on_mini_pan
on_protocol_frame decode f e =
    if f.kind == type_cat_response
    then on_radio (parse_cat_command f.payload) e
    else if f.kind == type_audio_data
    then on_audio decode f.payload e
    else if f.kind == type_spectrum
    then on_spectrum f.payload e
    else if f.kind == type_mini_pan
    then on_mini_pan f.payload e
    else returns e

unfoldable pub on_frames : Decoder → List Frame → Engine → Run Engine
unfolding and_then
on_frames decode [] e = returns e
on_frames decode (f ∷ fs) e = and_then (on_protocol_frame decode f e) (on_frames decode fs)

-- The client's data callback: `m_protocol->feedData`, whose frame callback is `onProtocolFrame`.
unfoldable pub on_data : Decoder → Bytes → Engine → Option (Run Engine)
unfolding on_frames
on_data decode bytes e =
    Option.map (λ r. on_frames decode r.1 (record e { protocol = r.0 }))
      (feed_data e.protocol bytes)

-- The call returns with the mutex free, the protocol as it was, and a radio state within its ranges.
pub record Sound (e : Engine) (run : Run Engine) : Type 0 where
  pub after : Engine
  pub returned : run ≡ returns after
  pub unlocked : after.cb_locked ≡ false
  pub same_protocol : after.protocol ≡ e.protocol
  pub same_link : after.tcp_connected ≡ e.tcp_connected
  pub valid : IsValid after.radio

log_if_keeps :
    (b : Bool) (event : Event) (e : Engine)
    → ((log_if b event e).protocol ≡ e.protocol)
      × ((log_if b event e).radio ≡ e.radio)
      × ((log_if b event e).tcp_connected ≡ e.tcp_connected)
unfolding log_if log
log_if_keeps true event e = (refl, refl, refl)
log_if_keeps false event e = (refl, refl, refl)

module _ {e : Engine} (u : e.cb_locked ≡ false) (v : IsValid e.radio) where
  pub returns-Sound : Sound e (returns e)
  returns-Sound = record {
    after = e;
    returned = refl;
    unlocked = u;
    same_protocol = refl;
    same_link = refl;
    valid = v;
  }

  call_locked-Sound :
      (callback : Engine → Bool) (event : Event) → Sound e (call_locked callback event e)
  unfolding call_locked lock unlock and_then
  call_locked-Sound callback event =
      let l = record e { cb_locked = true } in
      let keeps = log_if_keeps (callback l) event l in
      record {
        after = unlock (log_if (callback l) event l);
        returned = rw u;
        unlocked = refl;
        same_protocol = keeps.0;
        same_link = keeps.2;
        valid = subst IsValid (sym keeps.1) v;
      }

  pub on_radio-Sound :
      (change : RadioStateData → Change) → IsValid (change e.radio).0 → Sound e (on_radio change e)
  on_radio-Sound change w = record {
    after = _;
    returned = on_radio_lem change e u;
    unlocked = u;
    same_protocol = refl;
    same_link = refl;
    valid = w;
  }

-- A call behind a call that returned.
pub then-Sound :
    {e : Engine} {run : Run Engine} {f : Engine → Run Engine}
    → Sound e run
    → ((q : Engine) → q.cb_locked ≡ false → IsValid q.radio → Sound q (f q))
    → Sound e (and_then run f)
unfolding and_then
then-Sound {f = f} s g =
    let t = g s.after s.unlocked s.valid in
    record {
      after = t.after;
      returned = ap (λ r. and_then r f) s.returned ∙ t.returned;
      unlocked = t.unlocked;
      same_protocol = t.same_protocol ∙ s.same_protocol;
      same_link = t.same_link ∙ s.same_link;
      valid = t.valid;
    }

pub if-Sound :
    (b : Bool) {e : Engine} {x y : Run Engine}
    → Sound e x
    → Sound e y
    → Sound e (if b then x else y)
if-Sound true s t = s
if-Sound false s t = t

log-Sound : (event : Event) {e : Engine} {run : Run Engine} → Sound (log event e) run → Sound e run
unfolding log
log-Sound event s = record {
  after = s.after;
  returned = s.returned;
  unlocked = s.unlocked;
  same_protocol = s.same_protocol;
  same_link = s.same_link;
  valid = s.valid;
}

module _ (payload : Bytes) (e : Engine) (u : e.cb_locked ≡ false) (v : IsValid e.radio) where
  on_audio-Sound : (decode : Decoder) → Sound e (on_audio decode payload e)
  unfolding on_audio
  on_audio-Sound decode =
      let d = decode payload in
      let pcm = take (d.0 * 2) d.1 in
      if-Sound (ltb 0 (length payload) && e.decoder_ready)
        (if-Sound (ltb 0 d.0)
          (log-Sound (audio_written pcm) (
            call_locked-Sound {e = log (audio_written pcm) e} (unfold log in u) (unfold log in v)
              (λ l. l.audio_cb) (audio_decoded pcm d.0)))
          (returns-Sound u v))
        (returns-Sound u v)

  on_spectrum-Sound : Sound e (on_spectrum payload e)
  unfolding on_spectrum
  on_spectrum-Sound =
      let bins = length payload / 4 in
      if-Sound (leb 4 (length payload))
        (then-Sound {f = call_locked (λ l. l.spectrum_cb) (spectrum_received payload bins 0)}
          (on_radio-Sound u v (set_bin_count (pos bins))
            (unfold apply in apply-IsValid (bin_count (pos bins)) e.radio v))
          (λ q qu qv.
            call_locked-Sound qu qv (λ l. l.spectrum_cb) (spectrum_received payload bins 0)))
        (returns-Sound u v)

  on_mini_pan-Sound : Sound e (on_mini_pan payload e)
  unfolding on_mini_pan
  on_mini_pan-Sound =
      if-Sound (leb 4 (length payload))
        (call_locked-Sound u v (λ l. l.spectrum_cb)
          (spectrum_received payload (length payload / 4) 1))
        (returns-Sound u v)

-- Every frame that the radio can send, whatever its kind and its bytes, and whatever the codec
-- makes of it, is handled without a deadlock when the thread does not hold the mutex, and leaves
-- the radio's state within its ranges.
pub on_protocol_frame-Sound :
    (decode : Decoder) (f : Frame) (e : Engine)
    → e.cb_locked ≡ false
    → IsValid e.radio
    → Sound e (on_protocol_frame decode f e)
unfolding on_protocol_frame
on_protocol_frame-Sound decode f e u v =
    if-Sound (f.kind == type_cat_response)
      (on_radio-Sound u v (parse_cat_command f.payload)
        (parse_cat_command-IsValid f.payload e.radio v))
      (if-Sound (f.kind == type_audio_data) (on_audio-Sound f.payload e u v decode) (
        if-Sound (f.kind == type_spectrum) (on_spectrum-Sound f.payload e u v) (
          if-Sound (f.kind == type_mini_pan) (on_mini_pan-Sound f.payload e u v)
            (returns-Sound u v))))

pub on_frames-Sound :
    (decode : Decoder) (fs : List Frame) (e : Engine)
    → e.cb_locked ≡ false
    → IsValid e.radio
    → Sound e (on_frames decode fs e)
unfolding on_frames
on_frames-Sound decode [] e u v = returns-Sound u v
on_frames-Sound decode (f ∷ fs) e u v =
    then-Sound (on_protocol_frame-Sound decode f e u v) (on_frames-Sound decode fs)

-- Whatever bytes the socket delivers to an engine whose parser is between two calls, whose thread
-- does not hold the mutex, and whose radio state is within its ranges: the parser's loop ends, every
-- handler returns, and the engine is in such a state again.
pub on_data-Sound :
    (decode : Decoder) (bytes : Bytes) (e : Engine)
    → IsQuiet e.protocol
    → e.cb_locked ≡ false
    → IsValid e.radio
    → (q : Engine) × (on_data decode bytes e ≡ some (returns q))
      × IsQuiet q.protocol
      × (q.cb_locked ≡ false)
      × IsValid q.radio
unfolding on_data
on_data-Sound decode bytes e w u v =
    let fed = feed_data-IsQuiet e.protocol bytes w in
    let s = on_frames-Sound decode fed.1 (record e { protocol = fed.0 }) u v in
    (
      s.after,
      ap (Option.map (λ r. on_frames decode r.1 (record e { protocol = r.0 }))) fed.2
          ∙ ap some s.returned,
      subst IsQuiet (sym s.same_protocol) fed.3,
      s.unlocked,
      s.valid,
    )
