-- ===== src/Engine/Reports.antt =====
-- CAT reports on their way from the radio's byte stream to the radio's state and the application.
use mathlib.Core.List.{append-nil, append_assoc}
use ak.Base.{◌≡◌, refl, ap, sym, ◌∙◌, Bool, true, false, some, List, [], ◌∷◌, ◌++◌}
use mathlib.Core.Path.{subst}
use ak.Base.Text.{Bytes}
use ak.Protocol.{Frame, type_cat_response}
use ak.Protocol.RoundTrip.{encode_all, Fit, IsIdle}
use ak.Protocol.Stream.{IsNoise, feed_all-encode_all}
use ak.Protocol.Chunks.{Small, concat}
use ak.RadioState.{RadioStateData}
use ak.RadioState.Cat.{parse_cat_command}
use ak.RadioState.Commands.{parse_all}
use ak.Engine.{Engine, Event, returns, and_then}
use ak.Engine.Frames.{Decoder, on_protocol_frame, on_frames}
use ak.Engine.Radio.{heard, on_radio_lem}
use ak.Engine.Reading.{Ready, on_chunks}
use ak.Engine.Pieces.{handled, on_chunks-handled}

-- A CAT report as the radio frames it.
unfoldable pub cat_responses : List Bytes → List Frame
cat_responses [] = []
cat_responses (t ∷ ts) = record { kind = type_cat_response; payload = t } ∷ cat_responses ts

-- What the application hears of the reports: for each, in order, its changed keys.
unfoldable pub heard_all : Bool → List Bytes → RadioStateData → List Event
heard_all b [] s = []
heard_all b (t ∷ ts) s =
    heard b (parse_cat_command t s).1 ++ heard_all b ts (parse_cat_command t s).0

-- The engine behind the reports, seen from the one before them.
pub record Reported (ts : List Bytes) (e q : Engine) : Type 0 where
  pub same_radio : q.radio ≡ parse_all ts e.radio
  pub calls : q.events ≡ e.events ++ heard_all e.state_cb ts e.radio
  pub same_protocol : q.protocol ≡ e.protocol

on_cat_response :
    (decode : Decoder) (t : Bytes) (e : Engine)
    → e.cb_locked ≡ false
    → on_protocol_frame decode (record { kind = type_cat_response; payload = t }) e
      ≡ returns (record e {
        radio = (parse_cat_command t e.radio).0;
        events = e.events ++ heard e.state_cb (parse_cat_command t e.radio).1;
      })
unfolding on_protocol_frame
on_cat_response decode t e h = on_radio_lem (parse_cat_command t) e h

on_frames-cat_responses :
    (decode : Decoder) (ts : List Bytes) (e : Engine)
    → e.cb_locked ≡ false
    → (q : Engine) × (on_frames decode (cat_responses ts) e ≡ returns q) × Reported ts e q
unfolding on_frames cat_responses heard_all parse_all and_then
on_frames-cat_responses decode [] e h =
    (e, refl, record { same_radio = refl; calls = sym (append-nil e.events); same_protocol = refl })
on_frames-cat_responses decode (t ∷ ts) e h =
    let c = parse_cat_command t e.radio in
    let (q, ran, r) =
      on_frames-cat_responses decode ts
        (record e { radio = c.0; events = e.events ++ heard e.state_cb c.1 }) h in
    (
      q,
      ap (λ x. and_then x (on_frames decode (cat_responses ts))) (on_cat_response decode t e h)
          ∙ ran,
      record {
        same_radio = r.same_radio;
        calls =
            r.calls ∙ append_assoc e.events (heard e.state_cb c.1) (heard_all e.state_cb ts c.0);
        same_protocol = r.same_protocol;
      },
    )

-- An engine between two calls, its parser at rest with its callback set, is given by the socket, in
-- reads of at most 1 MiB that cut them anywhere, some noise and behind it the encodings of CAT
-- reports that fit a frame. Then the read loop's calls return, the radio's state is what the
-- commands set one after another, and the application, when it listens, is called once for each key
-- that a report changed, in order.
pub on_chunks-reports :
    (decode : Decoder) (cs : List Bytes) (g t : Bytes) (ts : List Bytes) (e : Engine)
    → Ready e
    → IsIdle e.protocol
    → e.protocol.has_callback ≡ true
    → IsNoise g
    → Fit (cat_responses (t ∷ ts))
    → Small cs
    → concat cs ≡ g ++ encode_all (cat_responses (t ∷ ts))
    → (q : Engine) × (on_chunks decode cs e ≡ some (returns q))
      × IsIdle q.protocol
      × (q.radio ≡ parse_all (t ∷ ts) e.radio)
      × (q.events ≡ e.events ++ heard_all e.state_cb (t ∷ ts) e.radio)
unfolding cat_responses handled
on_chunks-reports decode cs g t ts e h v c noise fit small same =
    let (p, fed, idle) =
      feed_all-encode_all e.protocol cs g (record { kind = type_cat_response; payload = t })
        (cat_responses ts) v c noise fit small same in
    let (q, ran, r) =
      on_frames-cat_responses decode (t ∷ ts) (record e { protocol = p }) h.unlocked in
    (
      q,
      on_chunks-handled decode cs e h ∙ ap (handled decode e) fed ∙ ap some ran,
      subst IsIdle (sym r.same_protocol) idle,
      r.same_radio,
      r.calls,
    )
