-- ===== src/Api/Outcome.antt =====
-- How sessions end that begin with `qk4_create`.
use ak.Base.{
  ℕ, ◌≡◌, refl, ap, sym, ◌∙◌, true, false, Option, none, some, List, [], ◌∷◌, arith, ◌&&◌, Bool,
  inl, inr, Bool-cases,
}
use ak.Base.Int.{pos}
use ak.RadioState.Invariant.{initial-IsValid}
use ak.Engine.{Engine, Run, returns, deadlock, and_then, err_not_connected, err_invalid_param}
use ak.Engine
use ak.Engine.Connection.{connection_calls_deadlock, some_target}
use ak.Api.{
  Handle, Config, validate_handle, validate_handle_void, qk4_create, qk4_connect, qk4_disconnect,
}
use ak.Api.Session.{
  RadioCall, Call, number, nothing, radio_call, call, session, radio, local, connect, disconnect,
}
use ak.Api.Offline.{Offline, Continues, radio_call-refused, local_call-Continues}

-- Whether a call does not reach the engine's `connect` or `disconnect`.
unfoldable pub stays_off : Call → Bool
stays_off (connect a (some h) b c d f) = false
stays_off disconnect = false
stays_off _ = true

unfoldable pub all_stay_off : List Call → Bool
unfolding stays_off
all_stay_off [] = true
all_stay_off (c ∷ cs) = stays_off c && all_stay_off cs

pub new-Offline : (attempts : ℕ) (ready : Bool) → Offline (Engine.new attempts ready)
unfolding Engine.new
new-Offline attempts ready = record { unlocked = refl; offline = refl; valid = initial-IsValid }

pub call-Continues :
    (c : Call) (e : Engine) → stays_off c ≡ true → Offline e → Continues (call c (some e))
unfolding call stays_off number and_then qk4_connect validate_handle
call-Continues (radio c) e h o = record {
  answer = some err_not_connected;
  after = e;
  returned = ap (λ r. and_then r (λ q. returns (some (q.0), q.1))) (radio_call-refused c o.offline);
  is_offline = o;
}
call-Continues (local c) e h o = local_call-Continues o c
call-Continues (connect a none c d f g) e h o = record {
  answer = some err_invalid_param;
  after = e;
  returned = refl;
  is_offline = o;
}
call-Continues (connect a (some b) c d f g) e h o = absurd (ground arith)
call-Continues disconnect e h o = absurd (ground arith)

pub call-deadlock : (c : Call) (e : Engine) → stays_off c ≡ false → call c (some e) ≡ deadlock
unfolding call stays_off number nothing and_then qk4_connect qk4_disconnect validate_handle
    validate_handle_void
call-deadlock (radio c) e h = absurd (ground arith)
call-deadlock (local c) e h = absurd (ground arith)
call-deadlock (connect a none c d f g) e h = absurd (ground arith)
call-deadlock (connect a (some b) c d f g) e h = rw ((connection_calls_deadlock _ a e).0)
call-deadlock disconnect e h = rw ((connection_calls_deadlock some_target (pos 0) e).1)

pub hung : {A : Type 0} {a : A} → deadlock ≡ returns a → ⊥
hung h = ground arith

-- The engine behind a session that returned is offline.
pub session-Offline :
    (cs : List Call) (e : Engine) {h : Handle}
    → Offline e
    → session cs (some e) ≡ returns h
    → (q : Engine) × (h ≡ some q) × Offline q
unfolding session and_then
session-Offline [] e o r = (e, ground arith, o)
session-Offline (c ∷ cs) e o r = elim (Bool-cases (stays_off c)) [
  | inl t ↦
      let k = call-Continues c e t o in
      session-Offline cs k.after k.is_offline
        (sym (ap (λ x. and_then x (λ y. session cs y.1)) k.returned) ∙ r)
  | inr f ↦
      absurd (hung (sym (ap (λ x. and_then x (λ y. session cs y.1)) (call-deadlock c e f)) ∙ r))
]

-- The application cannot get a radio to do anything: whatever calls a session makes, and whatever the client would
-- answer, if the session returns at all, then each command to the radio is refused with
-- `QK4_ERR_NOT_CONNECTED` and changes nothing.
pub session-refused :
    (ready : Bool) (config : Option Config) (cs : List Call) (h : Handle) (c : RadioCall)
    → session cs (qk4_create true ready config) ≡ returns h
    → radio_call c h ≡ returns (err_not_connected, h)
unfolding qk4_create
session-refused ready config cs h c r =
    let (q, s, o) = session-Offline cs _ (new-Offline _ ready) r in
    rw s (radio_call-refused c o.offline)

both : (a b : Bool) → (a && b) ≡ true → (a ≡ true) × (b ≡ true)
both a b h = ground arith

session-Continues :
    (cs : List Call) (e : Engine)
    → Offline e
    → all_stay_off cs ≡ true
    → (q : Engine) × (session cs (some e) ≡ returns (some q)) × Offline q
unfolding session all_stay_off and_then
session-Continues [] e o h = (e, refl, o)
session-Continues (c ∷ cs) e o h =
    let k = call-Continues c e (both (stays_off c) (all_stay_off cs) h).0 o in
    let (q, r, w) =
      session-Continues cs k.after k.is_offline (both (stays_off c) (all_stay_off cs) h).1 in
    (q, rw k.returned r, w)

-- A session on a new handle in which no call reaches the engine's `connect` or `disconnect` returns,
-- whatever its calls and their arguments are, with the mutex free and the radio's state within its
-- ranges.
pub session-Returns :
    (ready : Bool) (config : Option Config) (cs : List Call)
    → all_stay_off cs ≡ true
    → (q : Engine) × (session cs (qk4_create true ready config) ≡ returns (some q)) × Offline q
unfolding qk4_create
session-Returns ready config cs h = session-Continues cs _ (new-Offline _ ready) h
