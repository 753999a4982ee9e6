-- ===== src/Engine/Radio.antt =====
-- A method of the radio's state called by the engine while it does not hold `m_cbMutex`.
use Prim.Native.String.{String}
use ak.Base.{◌≡◌, refl, ap, sym, ◌∙◌, Bool, true, false, List, [], ◌∷◌, ◌++◌, Bool-cases, inl, inr}
use mathlib.Core.Path.{subst}
use mathlib.Core.List.{append-nil, append_assoc}
use ak.RadioState.{RadioStateData, Change}
use ak.Engine.{
  Engine, Event, returns, and_then, lock, unlock, log, log_if, on_change, on_changes, on_radio,
  state_changed,
}

-- What the application hears of the keys: nothing, or one call for each key, in order.
unfoldable pub heard : Bool → List String → List Event
heard false keys = []
heard true [] = []
heard true (key ∷ keys) = state_changed key ∷ heard true keys

heard-nil : (b : Bool) → heard b [] ≡ []
unfolding heard
heard-nil true = refl
heard-nil false = refl

on_change_silent :
    (key : String) (e : Engine)
    → e.cb_locked ≡ false
    → e.state_cb ≡ false
    → on_change key e ≡ returns e
unfolding on_change lock unlock log_if and_then
on_change_silent key e h k = rw (h, k)

on_change_called :
    (key : String) (e : Engine)
    → e.cb_locked ≡ false
    → e.state_cb ≡ true
    → on_change key e ≡ returns (log (state_changed key) e)
unfolding on_change lock unlock log_if log and_then
on_change_called key e h k = rw (h, k)

heard_called :
    (key : String) (keys : List String) (es : List Event) (b : Bool)
    → b ≡ true
    → (es ++ (state_changed key ∷ [])) ++ heard b keys ≡ es ++ heard b (key ∷ keys)
unfolding heard
heard_called key keys es b k =
    subst (λ c. (es ++ (state_changed key ∷ [])) ++ heard c keys ≡ es ++ heard c (key ∷ keys))
      (sym k) (append_assoc es (state_changed key ∷ []) (heard true keys))

heard_silent :
    (key : String) (keys : List String) (es : List Event) (b : Bool)
    → b ≡ false
    → es ++ heard b keys ≡ es ++ heard b (key ∷ keys)
unfolding heard
heard_silent key keys es b k =
    subst (λ c. es ++ heard c keys ≡ es ++ heard c (key ∷ keys)) (sym k) refl

on_changes-heard :
    (keys : List String) (e : Engine)
    → e.cb_locked ≡ false
    → on_changes keys e ≡ returns (record e { events = e.events ++ heard e.state_cb keys })
unfolding on_changes heard log and_then
on_changes-heard [] e h = rw (heard-nil, append-nil e.events)
on_changes-heard (key ∷ keys) e h = elim (Bool-cases e.state_cb) [
  | inl k ↦
      ap (λ r. and_then r (on_changes keys)) (on_change_called key e h k)
      ∙ on_changes-heard keys (log (state_changed key) e) h
      ∙ ap (λ es. returns (record e { events = es })) (heard_called key keys e.events e.state_cb k)
  | inr k ↦
      ap (λ r. and_then r (on_changes keys)) (on_change_silent key e h k)
      ∙ on_changes-heard keys e h
      ∙ ap (λ es. returns (record e { events = es })) (heard_silent key keys e.events e.state_cb k)
]

-- Outside of the mutex a method of the radio's state returns: the radio's data is what the method
-- makes it, the application hears of the notified keys, in order, if it has a callback, and nothing else of the
-- engine changes.
pub on_radio_lem :
    (change : RadioStateData → Change) (e : Engine)
    → e.cb_locked ≡ false
    → on_radio change e
      ≡ returns (record e {
        radio = (change e.radio).0;
        events = e.events ++ heard e.state_cb (change e.radio).1;
      })
unfolding on_radio
on_radio_lem change e h =
    on_changes-heard (change e.radio).1 (record e { radio = (change e.radio).0 }) h
