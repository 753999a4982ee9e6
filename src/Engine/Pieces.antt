-- ===== src/Engine/Pieces.antt =====
-- The engine does not depend on the pieces in which the socket delivers the bytes.
use mathlib.Core.Option
use mathlib.Core.Path.{subst}
use ak.Base.{
  ◌≡◌, refl, ap, sym, ◌∙◌, Bool, true, false, ◌&&◌, Option, none, some, List, [], ◌∷◌, ◌++◌, ltb,
  leb, ◌==◌, length, take, ◌*◌, ◌/◌, if◌then◌else◌,
}
use ak.Base.Int.{pos}
use ak.Base.Text.{Bytes}
use Prim.Native.String.{String}
use ak.Protocol.{
  Protocol, Frame, feed_data, process_buffer, append_data, type_cat_response, type_audio_data,
  type_spectrum, type_mini_pan,
}
use ak.Protocol.Bounds.{IsQuiet, feed_data-IsQuiet}
use ak.Protocol.Chunks.{feed_all, feed_all-process_buffer, Small, concat}
use ak.RadioState.{RadioStateData, Change}
use ak.RadioState.Setters.{set_bin_count}
use ak.RadioState.Cat.{parse_cat_command}
use ak.Engine.{
  Engine, Event, Run, returns, deadlock, and_then, lock, unlock, log, log_if, on_change, on_changes,
  on_radio, state_changed, audio_written, audio_decoded, spectrum_received,
}
use ak.Engine.Frames.{
  Decoder, call_locked, on_audio, on_spectrum, on_mini_pan, on_protocol_frame, on_frames, on_data,
  on_frames-Sound,
}
use ak.Engine.Reading.{Ready, on_chunks, then_more}

-- The engine with another parser.
abbrev with : Protocol → Engine → Engine
with t e = record e { protocol = t }

module _ (t : Protocol) where
  abbrev after : Run Engine → Run Engine
  after r = and_then r (λ q. returns (with t q))

  -- A call that does not look at the parser.
  abbrev Blind : (Engine → Run Engine) → Type 0
  Blind f = (e : Engine) → f (with t e) ≡ after (f e)

  then-Blind :
      (f : Engine → Run Engine) (r : Run Engine)
      → Blind f
      → and_then (after r) f ≡ after (and_then r f)
  unfolding and_then
  then-Blind f (returns q) h = h q
  then-Blind f deadlock h = refl

  if-Blind :
      (b : Bool) (x y : Run Engine) {u v : Run Engine}
      → u ≡ after x
      → v ≡ after y
      → (if b then u else v) ≡ after (if b then x else y)
  if-Blind true x y h k = h
  if-Blind false x y h k = k

  -- A change under the mutex.
  guarded-Blind :
      (b : Bool) (change : Engine → Engine) (l : Engine)
      → change (with t l) ≡ with t (change l)
      → and_then (if b then deadlock else returns (with t l)) (λ q. returns (change q))
        ≡ after (and_then (if b then deadlock else returns l) (λ q. returns (change q)))
  unfolding and_then
  guarded-Blind true change l h = refl
  guarded-Blind false change l h = ap returns h

  log_if-with :
      (b : Bool) (event : Event) (e : Engine)
      → log_if b event (with t e) ≡ with t (log_if b event e)
  unfolding log_if log
  log_if-with true event e = refl
  log_if-with false event e = refl

  on_change-Blind : (key : String) → Blind (on_change key)
  unfolding on_change lock unlock
  on_change-Blind key e =
      guarded-Blind e.cb_locked (λ l. unlock (log_if l.state_cb (state_changed key) l))
        (record e { cb_locked = true })
        (ap unlock (log_if-with e.state_cb (state_changed key) (record e { cb_locked = true })))

  on_changes-Blind : (keys : List String) → Blind (on_changes keys)
  unfolding on_changes and_then
  on_changes-Blind [] e = refl
  on_changes-Blind (key ∷ keys) e =
      ap (λ r. and_then r (on_changes keys)) (on_change-Blind key e)
      ∙ then-Blind (on_changes keys) (on_change key e) (on_changes-Blind keys)

  on_radio-Blind : (change : RadioStateData → Change) → Blind (on_radio change)
  unfolding on_radio
  on_radio-Blind change e =
      on_changes-Blind (change e.radio).1 (record e { radio = (change e.radio).0 })

  call_locked-Blind :
      (callback : Engine → Bool) (event : Event)
      → ((e : Engine) → callback (with t e) ≡ callback e)
      → Blind (call_locked callback event)
  unfolding call_locked lock unlock
  call_locked-Blind callback event h e =
      let l = record e { cb_locked = true } in
      guarded-Blind e.cb_locked (λ q. unlock (log_if (callback q) event q)) l
        (ap (λ b. unlock (log_if b event (with t l))) (h l)
          ∙ ap unlock (log_if-with (callback l) event l))

  on_audio-Blind : (decode : Decoder) (payload : Bytes) → Blind (on_audio decode payload)
  unfolding on_audio log and_then
  on_audio-Blind decode payload e =
      let d = decode payload in
      let pcm = take (d.0 * 2) d.1 in
      if-Blind (ltb 0 (length payload) && e.decoder_ready) _ _
        (if-Blind (ltb 0 d.0) _ _
          (call_locked-Blind (λ l. l.audio_cb) (audio_decoded pcm d.0) (λ q. refl)
            (log (audio_written pcm) e))
          refl)
        refl

  on_spectrum-Blind : (payload : Bytes) → Blind (on_spectrum payload)
  unfolding on_spectrum and_then
  on_spectrum-Blind payload e =
      let bins = length payload / 4 in
      let shows = call_locked (λ l. l.spectrum_cb) (spectrum_received payload bins 0) in
      if-Blind (leb 4 (length payload)) _ _
        (ap (λ r. and_then r shows) (on_radio-Blind (set_bin_count (pos bins)) e)
          ∙ then-Blind shows (on_radio (set_bin_count (pos bins)) e) (
              call_locked-Blind (λ l. l.spectrum_cb) (spectrum_received payload bins 0)
                (λ q. refl)))
        refl

  on_mini_pan-Blind : (payload : Bytes) → Blind (on_mini_pan payload)
  unfolding on_mini_pan and_then
  on_mini_pan-Blind payload e =
      if-Blind (leb 4 (length payload)) _ _
        (call_locked-Blind (λ l. l.spectrum_cb) (spectrum_received payload (length payload / 4) 1)
          (λ q. refl) e)
        refl

  on_protocol_frame-Blind : (decode : Decoder) (x : Frame) → Blind (on_protocol_frame decode x)
  unfolding on_protocol_frame and_then
  on_protocol_frame-Blind decode x e =
      if-Blind (x.kind == type_cat_response) _ _ (on_radio-Blind (parse_cat_command x.payload) e) (
        if-Blind (x.kind == type_audio_data) _ _ (on_audio-Blind decode x.payload e) (
          if-Blind (x.kind == type_spectrum) _ _ (on_spectrum-Blind x.payload e)
            (if-Blind (x.kind == type_mini_pan) _ _ (on_mini_pan-Blind x.payload e) refl)))

  on_frames-Blind : (decode : Decoder) (fs : List Frame) → Blind (on_frames decode fs)
  unfolding on_frames and_then
  on_frames-Blind decode [] e = refl
  on_frames-Blind decode (x ∷ fs) e =
      ap (λ r. and_then r (on_frames decode fs)) (on_protocol_frame-Blind decode x e)
      ∙ then-Blind (on_frames decode fs) (on_protocol_frame decode x e) (on_frames-Blind decode fs)

then-append :
    (r : Run Engine) (f g h : Engine → Run Engine)
    → ((q : Engine) → h q ≡ and_then (f q) g)
    → and_then r h ≡ and_then (and_then r f) g
unfolding and_then
then-append (returns q) f g h k = k q
then-append deadlock f g h k = refl

on_frames-append :
    (decode : Decoder) (fs gs : List Frame) (e : Engine)
    → on_frames decode (fs ++ gs) e ≡ and_then (on_frames decode fs e) (on_frames decode gs)
unfolding on_frames and_then
on_frames-append decode [] gs e = refl
on_frames-append decode (x ∷ fs) gs e =
    then-append (on_protocol_frame decode x e) (on_frames decode fs) (on_frames decode gs)
      (on_frames decode (fs ++ gs)) (on_frames-append decode fs gs)

-- The handlers of the frames of a stream.
unfoldable pub handled : Decoder → Engine → Option (Protocol × List Frame) → Option (Run Engine)
handled decode e none = none
handled decode e (some (p, fs)) = some (on_frames decode fs (with p e))

-- The frames of a piece, which were handled, and those of the rest.
handled-append :
    (decode : Decoder) (e q : Engine) (p : Protocol) (fs : List Frame)
    (o : Option (Protocol × List Frame))
    → on_frames decode fs (with p e) ≡ returns q
    → handled decode q o ≡ handled decode e (Option.map (λ t. (t.0, fs ++ t.1)) o)
unfolding handled and_then
handled-append decode e q p fs none h = refl
handled-append decode e q p fs (some (t, gs)) h = sym (
    ap some (
      on_frames-append decode fs gs (with t e)
      ∙ ap (λ r. and_then r (on_frames decode gs)) (on_frames-Blind t decode fs (with p e))
      ∙ ap (λ r. and_then (after t r) (on_frames decode gs)) h))

feed_all-cons :
    (p q : Protocol) (c : Bytes) (cs : List Bytes) (fs : List Frame)
    → feed_data p c ≡ some (q, fs)
    → feed_all p (c ∷ cs) ≡ Option.map (λ t. (t.0, fs ++ t.1)) (feed_all q cs)
unfolding feed_all
feed_all-cons p q c cs fs h =
    ap
      (λ o. elim o [
        | none ↦ none
        | some (q, fs) ↦ Option.map (λ t. (t.0, fs ++ t.1)) (feed_all q cs)
      ])
      h

on_data-cons :
    (decode : Decoder) (c : Bytes) (e : Engine) (q : Protocol) (fs : List Frame)
    → feed_data e.protocol c ≡ some (q, fs)
    → on_data decode c e ≡ some (on_frames decode fs (with q e))
unfolding on_data
on_data-cons decode c e q fs h =
    ap (Option.map (λ r. on_frames decode r.1 (record e { protocol = r.0 }))) h

pub on_chunks-handled :
    (decode : Decoder) (chunks : List Bytes) (e : Engine)
    → Ready e
    → on_chunks decode chunks e ≡ handled decode e (feed_all e.protocol chunks)
unfolding on_chunks then_more handled feed_all on_frames
on_chunks-handled decode [] e h = refl
on_chunks-handled decode (c ∷ cs) e h =
    let (p, fs, fed, quiet, bound) = feed_data-IsQuiet e.protocol c h.quiet in
    let s = on_frames-Sound decode fs (with p e) h.unlocked h.valid in
    let ready : Ready s.after = record {
      quiet = subst IsQuiet (sym s.same_protocol) quiet;
      unlocked = s.unlocked;
      valid = s.valid;
    } in
    ap (then_more (on_chunks decode cs)) (on_data-cons decode c e p fs fed ∙ ap some s.returned)
    ∙ on_chunks-handled decode cs s.after ready
    ∙ ap (λ x. handled decode s.after (feed_all x cs)) s.same_protocol
    ∙ handled-append decode e s.after p fs (feed_all p cs) s.returned
    ∙ ap (handled decode e) (sym (feed_all-cons e.protocol p c cs fs fed))

-- However the bytes of the socket are cut into reads of at most 1 MiB: an engine between two calls
-- ends in the same state, with the same calls of the application's callbacks in the same order, and
-- the same samples for the audio output.
pub on_chunks-same :
    (decode : Decoder) (cs ds : List Bytes) (e : Engine)
    → Ready e
    → Small cs
    → Small ds
    → concat cs ≡ concat ds
    → on_chunks decode cs e ≡ on_chunks decode ds e
on_chunks-same decode cs ds e h c d same =
    on_chunks-handled decode cs e h
    ∙ ap (handled decode e) (
        feed_all-process_buffer e.protocol cs h.quiet c
        ∙ ap (λ b. process_buffer (append_data e.protocol b)) same
        ∙ sym (feed_all-process_buffer e.protocol ds h.quiet d))
    ∙ sym (on_chunks-handled decode ds e h)
