-- ===== src/JniBridge/Calls.antt =====
-- A native method that calls one C function.
use mathlib.Core.Path.{subst}
use ak.Base.{
  ◌≡◌, refl, sym, ap, ◌∙◌, inl, inr, true, false, Option, some, if◌then◌else◌, Bool-cases,
}
use ak.Base.Int.{ℤ}
use ak.Engine.{Run, returns, deadlock, and_then}
use ak.Api.{Handle}
use ak.Api.Session.{Call, call, Answer}
use ak.Api.Outcome.{call-Continues, call-deadlock, hung, stays_off}
use ak.JniBridge.{Bridge}
use ak.JniBridge.Natives.{Result, guarded}
use ak.JniBridge.Sequence.{IsValid}

-- The value that a call returned.
unfoldable pub returned : {A : Type 0} → A → Run A → A
returned d (returns a) = a
returned d deadlock = d

pub returns-injective : {A : Type 0} {a b : A} → returns a ≡ returns b → a ≡ b
unfolding returned
returns-injective {a} h = ap (returned a) h

module _ (b : Bridge) where
  abbrev pub keep : Run Answer → Result
  keep r = and_then r (λ q. returns (q.0, record b { handle = q.1 }))

  pub guarded-on :
      (default : Option ℤ) (f : Handle → Run Answer) (h : Handle)
      → b.initialized ≡ true
      → b.handle ≡ h
      → guarded default f b ≡ keep (f h)
  unfolding guarded
  guarded-on default f h i e =
      ap (λ t. if t then keep (f b.handle) else returns (default, b)) i ∙ ap (λ x. keep (f x)) e

  pub guarded-off :
      (default : Option ℤ) (f : Handle → Run Answer)
      → b.initialized ≡ false
      → guarded default f b ≡ returns (default, b)
  unfolding guarded
  guarded-off default f i = ap (λ t. if t then keep (f b.handle) else returns (default, b)) i

abbrev pub second : Result → Run Bridge
second r = and_then r (λ q. returns q.1)

-- A method that calls one C function, which does not reach the engine's `connect` or `disconnect`,
-- returns, and keeps the bridge valid.
pub guarded-Returns :
    (default : Option ℤ) (c : Call) (b : Bridge)
    → IsValid b
    → stays_off c ≡ true
    → (q : Bridge) × (second (guarded default (call c) b) ≡ returns q) × IsValid q
unfolding and_then
guarded-Returns default c b (inl off) t =
    (b, ap second (guarded-off b default (call c) off.not_initialized), inl off)
guarded-Returns default c b (inr on) t =
    let k = call-Continues c on.engine t on.is_offline in
    (
      record b { handle = some k.after },
      ap second (
          guarded-on b default (call c) (some on.engine) on.initialized on.has_handle
          ∙ ap (keep b) k.returned),
      inr (record {
        initialized = on.initialized;
        engine = k.after;
        has_handle = refl;
        has_object = on.has_object;
        one_ref = on.one_ref;
        one_engine = on.one_engine;
        is_offline = k.is_offline;
      }),
    )

-- Any other does not return with an engine, and changes nothing without one.
guarded_off-IsValid :
    (default : Option ℤ) (c : Call) (b q : Bridge)
    → stays_off c ≡ false
    → IsValid b
    → second (guarded default (call c) b) ≡ returns q
    → IsValid q
unfolding and_then
guarded_off-IsValid default c b q f (inl off) h =
    subst IsValid
      (returns-injective (sym (ap second (guarded-off b default (call c) off.not_initialized)) ∙ h))
      (inl off)
guarded_off-IsValid default c b q f (inr on) h = absurd (
    hung (
      sym (
        ap second (
          guarded-on b default (call c) (some on.engine) on.initialized on.has_handle
          ∙ ap (keep b) (call-deadlock c on.engine f)))
      ∙ h))

pub guarded-IsValid :
    (default : Option ℤ) (c : Call) (b q : Bridge)
    → IsValid b
    → second (guarded default (call c) b) ≡ returns q
    → IsValid q
unfolding and_then
guarded-IsValid default c b q v h = elim (Bool-cases (stays_off c)) [
  | inl t ↦
      let (p, e, w) = guarded-Returns default c b v t in
      subst IsValid (returns-injective (sym e ∙ h)) w
  | inr f ↦ guarded_off-IsValid default c b q f v h
]
