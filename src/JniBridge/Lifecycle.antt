-- ===== src/JniBridge/Lifecycle.antt =====
-- `nativeInitialize` and `nativeDestroy`.
use mathlib.Core.Path.{subst}
use ak.Base.{
  suc, ◌≡◌, refl, sym, ap, ◌∙◌, inl, inr, Bool, true, false, Option, none, some, arith,
  if◌then◌else◌, Bool-cases,
}
use ak.Base.Int.{ℤ}
use ak.Engine.{Engine, Run, returns, deadlock, and_then, err_not_connected}
use ak.Engine
use ak.Api.{Handle, qk4_create, engine_config}
use ak.Api.Control.{
  qk4_set_connection_callback, qk4_set_error_callback, qk4_dxcluster_set_spot_callback,
}
use ak.Api.Session
use ak.Api.Session.{Call, RadioCall, call, radio_call, Answer}
use ak.Api.Offline.{Offline, local_call-Continues}
use ak.Api.Outcome.{new-Offline, hung}
use ak.JniBridge.{
  Methods, Bridge, set_up, register, native_initialize, native_destroy, settings, drop_engine,
  drop_object,
}
use ak.JniBridge.Sequence.{Off, IsValid}
use ak.JniBridge.Calls.{returned}

-- The rest of `nativeDestroy`, behind `qk4_destroy`.
abbrev finish : Bridge → Bridge
finish d = record (drop_object d) { initialized = false }

finish-Off :
    (d : Bridge)
    → d.handle ≡ none
    → d.engines ≡ 0
    → d.global_refs ≡ (if d.callback_obj then 1 else 0)
    → Off (finish d)
unfolding drop_object
finish-Off d h e r = elim (Bool-cases d.callback_obj) [
  | inl t ↦ record {
    not_initialized = refl;
    no_handle = ground arith;
    no_object = ground arith;
    no_refs = ground arith;
    no_engines = ground arith;
  }
  | inr f ↦ record {
    not_initialized = refl;
    no_handle = ground arith;
    no_object = ground arith;
    no_refs = ground arith;
    no_engines = ground arith;
  }
]

pub destroy-Off : (b : Bridge) → IsValid b → Off (native_destroy b)
unfolding native_destroy drop_engine
destroy-Off b (inl off) =
    subst (λ d. Off (finish d)) (sym (ap (λ h. drop_engine h b) off.no_handle))
      (finish-Off b off.no_handle off.no_engines
        (off.no_refs ∙ ap (λ t. if t then 1 else 0) (sym off.no_object)))
destroy-Off b (inr on) =
    subst (λ d. Off (finish d)) (sym (ap (λ h. drop_engine h b) on.has_handle))
      (finish-Off (drop_engine (some on.engine) b) refl (omega (arith, on.one_engine))
        (on.one_ref ∙ ap (λ t. if t then 1 else 0) (sym on.has_object)))

nothing-returns :
    (r : Run Handle) {answer : Option ℤ} {h : Handle}
    → Session.nothing r ≡ returns (answer, h)
    → r ≡ returns h
unfolding Session.nothing and_then returned
nothing-returns (returns a) e = ap returns (ap (λ r. (returned {A = Answer} (none, a) r).1) e)
nothing-returns deadlock e = absurd (hung e)

-- The callbacks are registered, and the engine stays as it was between two calls.
register-Offline :
    (e : Engine) → Offline e → (q : Engine) × (register (some e) ≡ returns (some q)) × Offline q
unfolding register and_then Session.local_call returned
register-Offline e o =
    let k1 = local_call-Continues o (Session.set_state_callback true) in
    let k2 = local_call-Continues k1.is_offline (Session.set_connection_callback true) in
    let k3 = local_call-Continues k2.is_offline (Session.set_error_callback true) in
    let k4 = local_call-Continues k3.is_offline (Session.dxcluster_set_spot_callback true) in
    let f3 : Handle → Run Handle = λ h. qk4_dxcluster_set_spot_callback h true in
    let f2 : Handle → Run Handle = λ h. and_then (qk4_set_error_callback h true) f3 in
    let f1 : Handle → Run Handle = λ h. and_then (qk4_set_connection_callback h true) f2 in
    (
      k4.after,
      ap (λ r. and_then r f1) (nothing-returns _ k1.returned)
          ∙ ap (λ r. and_then r f2) (nothing-returns _ k2.returned)
          ∙ ap (λ r. and_then r f3) (nothing-returns _ k3.returned)
          ∙ nothing-returns _ k4.returned,
      k4.is_offline,
    )

-- The bridge that `nativeInitialize` leaves with an engine.
abbrev set_up_with : Methods → Bridge → Handle → Bridge
set_up_with found b h = record b {
  handle = h;
  initialized = true;
  callback_obj = true;
  methods = found;
  global_refs = suc b.global_refs;
  engines = suc b.engines;
}

abbrev second_of : Run (Bool × Bridge) → Run Bridge
second_of r = and_then r (λ q. returns q.1)

-- How `nativeInitialize` ends, given the test of `g_initialized`.
abbrev initialized_or : Bool → Methods → Handle → Bridge → Run Bridge
initialized_or done found h b = second_of (if done then returns (true, b) else set_up found h b)

-- `nativeInitialize` returns, and keeps the bridge valid.
pub initialize-Returns :
    (allocated ready : Bool) (found : Methods) (jitter_ms spectrum_fps : ℤ) (b : Bridge)
    → IsValid b
    → (q : Bridge) × (second_of (native_initialize allocated ready found jitter_ms spectrum_fps b)
        ≡ returns q)
      × IsValid q
unfolding native_initialize set_up and_then qk4_create
initialize-Returns allocated ready found jitter_ms spectrum_fps b (inr on) =
    let made = qk4_create allocated ready (some (settings jitter_ms spectrum_fps)) in
    (b, ap (λ t. initialized_or t found made b) on.initialized, inr on)
initialize-Returns false ready found jitter_ms spectrum_fps b (inl off) = (
  record b { handle = none },
  ap (λ t. initialized_or t found none b) off.not_initialized,
  inl (record {
    not_initialized = off.not_initialized;
    no_handle = refl;
    no_object = off.no_object;
    no_refs = off.no_refs;
    no_engines = off.no_engines;
  }),
)
initialize-Returns true ready found jitter_ms spectrum_fps b (inl off) =
    let config = engine_config (some (settings jitter_ms spectrum_fps)) in
    let made = Engine.new config.reconnect_max_attempts ready in
    let (e, registered, offline) = register-Offline made (new-Offline _ ready) in
    (
      set_up_with found b (some e),
      ap (λ t. initialized_or t found (some made) b) off.not_initialized
          ∙ ap (λ r. second_of (and_then r (λ h. returns (true, set_up_with found b h))))
              registered,
      inr (record {
        initialized = refl;
        engine = e;
        has_handle = refl;
        has_object = refl;
        one_ref = ap suc off.no_refs;
        one_engine = ap suc off.no_engines;
        is_offline = offline;
      }),
    )
