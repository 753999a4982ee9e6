-- ===== src/Engine/Local.antt =====
-- The engine's settings and readings: `setNr`, the state queries, the keyer, the audio and the
-- spectrum controls of qk4_engine.cpp. The result 0 that `setNr` always returns is left out.
use ak.Base.{◌≡◌, refl, sym, ◌∙◌, Bool, true, false, ◌||◌, ◌++◌, ◌∷◌, [], if◌then◌else◌}
use mathlib.Core.Path.{subst}
use ak.Base.Int.{ℤ, pos, eq_ℤ, clamp}
use ak.Base.Text.{Bytes, codes, print_int, print_padded, snprintf}
use ak.RadioState.{is_zero, get_vfo}
use ak.RadioState.Setters.{
  set_cw_speed, set_cw_iambic_mode, set_main_volume, set_sub_volume, set_span, set_center,
  set_ref_level,
}
use ak.RadioState.Setters
use ak.RadioState.Receivers.{set_nr_enabled, set_nr_level}
use ak.RadioState.Op
use ak.RadioState.Op.{apply}
use ak.RadioState.Invariant.{IsValid, apply-IsValid}
use ak.RadioUtils.Spans.{snap_to_span_tier}
use ak.Engine.{Engine, Run, returns, and_then, on_radio, send_cat, log}
use ak.Engine.Frames.{Sound, returns-Sound, on_radio-Sound, then-Sound, if-Sound}

unfoldable pub send_if_connected : Bytes → Engine → Engine
send_if_connected text e = if e.tcp_connected then send_cat text e else e

unfoldable pub set_nr : ℤ → ℤ → Bool → ℤ → Engine → Run Engine
unfolding and_then
set_nr vfo algorithm enabled level e =
    and_then (on_radio (set_nr_enabled vfo algorithm enabled) e)
      (λ q. if enabled then on_radio (set_nr_level vfo algorithm level) q else returns q)

unfoldable pub get_frequency : ℤ → Engine → ℤ
get_frequency vfo e = (get_vfo vfo e.radio).frequency_hz

unfoldable pub get_mode : ℤ → Engine → ℤ
get_mode vfo e = (get_vfo vfo e.radio).mode

unfoldable pub get_smeter : ℤ → Engine → ℤ
get_smeter vfo e = (get_vfo vfo e.radio).smeter

unfoldable pub get_tx_state : Engine → ℤ
get_tx_state e = if e.radio.tx.ptt then pos 1 else pos 0

unfoldable pub get_power_level : Engine → ℤ
get_power_level e = e.radio.tx.power_watts

unfoldable pub get_tuning_rate : ℤ → Engine → ℤ
get_tuning_rate vfo e = (get_vfo vfo e.radio).tuning_rate

unfoldable pub get_sub_on : Engine → ℤ
get_sub_on e = if e.radio.vfo_b.sub_on then pos 1 else pos 0

-- The element 0 is a dit, 1 a dah; any other releases the key of the sidetone.
unfoldable pub cw_key : ℤ → Engine → Engine
cw_key element e =
    let dit = eq_ℤ element (pos 0) in
    let dah = eq_ℤ element (pos 1) in
    let sent =
      if dit then send_cat (codes "KY A;") e else if dah then send_cat (codes "KY N;") e else e in
    if e.tcp_connected then record sent { sidetone_active = dit || dah } else e

unfoldable pub cw_set_speed : ℤ → Engine → Run Engine
unfolding and_then send_if_connected
cw_set_speed wpm e = and_then (on_radio (set_cw_speed wpm) e) (λ q.
    returns (send_if_connected (snprintf 12 (codes "KS" ++ (print_padded 3 wpm ++ (b';' ∷ [])))) q))

unfoldable pub cw_set_iambic_mode : ℤ → Engine → Run Engine
cw_set_iambic_mode mode e = on_radio (set_cw_iambic_mode mode) e

unfoldable pub set_volume : ℤ → ℤ → Engine → Run Engine
set_volume channel level e =
    if is_zero channel
    then on_radio (set_main_volume level) e
    else on_radio (set_sub_volume level) e

-- The radio's state and the sidetone generator each clamp the pitch.
unfoldable pub set_sidetone_pitch : ℤ → Engine → Run Engine
unfolding and_then
set_sidetone_pitch hz e =
    and_then (on_radio (Setters.set_sidetone_pitch hz) e)
      (λ q. returns (record q { sidetone_pitch = clamp hz (pos 400) (pos 1000) }))

unfoldable pub set_spectrum_span : ℤ → Engine → Run Engine
unfolding and_then send_if_connected
set_spectrum_span span e =
    let snapped = pos (snap_to_span_tier span) in
    and_then (on_radio (set_span snapped) e) (λ q.
      returns
        (send_if_connected (snprintf 16 (codes "#SPN" ++ (print_int snapped ++ (b';' ∷ [])))) q))

unfoldable pub set_spectrum_center : ℤ → Engine → Run Engine
set_spectrum_center center e = on_radio (set_center center) e

unfoldable pub set_spectrum_ref_level : ℤ → Engine → Run Engine
unfolding and_then send_if_connected
set_spectrum_ref_level ref e = and_then (on_radio (set_ref_level ref) e) (λ q.
    returns (send_if_connected (snprintf 12 (codes "#REF" ++ (print_int ref ++ (b';' ∷ [])))) q))

-- A call of one of the settings.
pub data Setting : Type 0 where
  nr : ℤ → ℤ → Bool → ℤ → Setting
  key cw_speed iambic pitch span center ref_level : ℤ → Setting
  volume : ℤ → ℤ → Setting

unfoldable pub adjust : Setting → Engine → Run Engine
adjust (nr vfo algorithm enabled level) e = set_nr vfo algorithm enabled level e
adjust (key element) e = returns (cw_key element e)
adjust (cw_speed wpm) e = cw_set_speed wpm e
adjust (iambic mode) e = cw_set_iambic_mode mode e
adjust (volume channel level) e = set_volume channel level e
adjust (pitch hz) e = set_sidetone_pitch hz e
adjust (span hz) e = set_spectrum_span hz e
adjust (center hz) e = set_spectrum_center hz e
adjust (ref_level db) e = set_spectrum_ref_level db e

-- What `Sound` reads of an engine.
pub record SameCore (q r : Engine) : Type 0 where
  pub lock : r.cb_locked ≡ q.cb_locked
  pub protocol : r.protocol ≡ q.protocol
  pub link : r.tcp_connected ≡ q.tcp_connected
  pub radio : r.radio ≡ q.radio

SameCore-refl : (q : Engine) → SameCore q q
SameCore-refl q = record { lock = refl; protocol = refl; link = refl; radio = refl }

if-SameCore :
    (b : Bool) {q x y : Engine} → SameCore q x → SameCore q y → SameCore q (if b then x else y)
if-SameCore true h k = h
if-SameCore false h k = k

SameCore-Sound :
    {q r : Engine} → SameCore q r → q.cb_locked ≡ false → IsValid q.radio → Sound q (returns r)
SameCore-Sound {r = r} h u v = record {
  after = r;
  returned = refl;
  unlocked = h.lock ∙ u;
  same_protocol = h.protocol;
  same_link = h.link;
  valid = subst IsValid (sym h.radio) v;
}

send_cat-SameCore : (text : Bytes) (q : Engine) → SameCore q (send_cat text q)
unfolding send_cat log
send_cat-SameCore text q = record { lock = refl; protocol = refl; link = refl; radio = refl }

send-Sound :
    (text : Bytes) (q : Engine)
    → q.cb_locked ≡ false
    → IsValid q.radio
    → Sound q (returns (send_if_connected text q))
unfolding send_if_connected
send-Sound text q u v =
    SameCore-Sound (if-SameCore q.tcp_connected (send_cat-SameCore text q) (SameCore-refl q)) u v

cw_key-Sound :
    (element : ℤ) (q : Engine)
    → q.cb_locked ≡ false
    → IsValid q.radio
    → Sound q (returns (cw_key element q))
unfolding cw_key
cw_key-Sound element q u v =
    let sent = if-SameCore (eq_ℤ element (pos 0)) (send_cat-SameCore (codes "KY A;") q) (
      if-SameCore (eq_ℤ element (pos 1)) (send_cat-SameCore (codes "KY N;") q) (SameCore-refl q)) in
    SameCore-Sound
      (if-SameCore q.tcp_connected
        (record {
          lock = sent.lock;
          protocol = sent.protocol;
          link = sent.link;
          radio = sent.radio;
        })
        (SameCore-refl q))
      u v

-- No setting deadlocks when the thread does not hold the mutex: each returns, with the mutex free,
-- the protocol as it was, and the radio's state within its ranges, if it was within them before.
pub adjust-Sound :
    (c : Setting) (e : Engine) → e.cb_locked ≡ false → IsValid e.radio → Sound e (adjust c e)
unfolding adjust set_nr cw_set_speed cw_set_iambic_mode set_volume set_sidetone_pitch
    set_spectrum_span set_spectrum_center set_spectrum_ref_level
adjust-Sound (nr a b on d) e u v =
    then-Sound
      (on_radio-Sound u v (set_nr_enabled a b on)
        (unfold apply in apply-IsValid (Op.nr_enabled a b on) e.radio v))
      (λ q qu qv.
        if-Sound on
          (on_radio-Sound qu qv (set_nr_level a b d)
            (unfold apply in apply-IsValid (Op.nr_level a b d) q.radio qv))
          (returns-Sound qu qv))
adjust-Sound (key a) e u v = cw_key-Sound a e u v
adjust-Sound (cw_speed a) e u v =
    then-Sound
      (on_radio-Sound u v (set_cw_speed a)
        (unfold apply in apply-IsValid (Op.cw_speed a) e.radio v))
      (send-Sound _)
adjust-Sound (iambic a) e u v =
    on_radio-Sound u v (set_cw_iambic_mode a)
      (unfold apply in apply-IsValid (Op.cw_iambic_mode a) e.radio v)
adjust-Sound (volume a b) e u v =
    if-Sound (is_zero a)
      (on_radio-Sound u v (set_main_volume b)
        (unfold apply in apply-IsValid (Op.main_volume b) e.radio v))
      (on_radio-Sound u v (set_sub_volume b)
        (unfold apply in apply-IsValid (Op.sub_volume b) e.radio v))
adjust-Sound (pitch a) e u v =
    then-Sound
      (on_radio-Sound u v (Setters.set_sidetone_pitch a)
        (unfold apply in apply-IsValid (Op.sidetone_pitch a) e.radio v))
      (λ q qu qv. record {
        after = _;
        returned = refl;
        unlocked = qu;
        same_protocol = refl;
        same_link = refl;
        valid = qv;
      })
adjust-Sound (span a) e u v =
    then-Sound
      (on_radio-Sound u v (set_span (pos (snap_to_span_tier a)))
        (unfold apply in apply-IsValid (Op.span (pos (snap_to_span_tier a))) e.radio v))
      (send-Sound _)
adjust-Sound (center a) e u v =
    on_radio-Sound u v (set_center a) (unfold apply in apply-IsValid (Op.center a) e.radio v)
adjust-Sound (ref_level a) e u v =
    then-Sound
      (on_radio-Sound u v (set_ref_level a)
        (unfold apply in apply-IsValid (Op.ref_level a) e.radio v))
      (send-Sound _)
