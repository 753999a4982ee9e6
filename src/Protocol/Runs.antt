-- ===== src/Protocol/Runs.antt =====
-- The loop of `processBuffer` in protocol.cpp as a relation, and the fuel of the model.
use ak.Base.{
  ℕ, zero, suc, ◌+◌, ◌*◌, ◌<◌, ◌≡◌, refl, List, [], ◌++◌, ◌⊎◌, inl, inr, some, arith, length,
}
use ak.Protocol.{Protocol, Frame, Outcome, wait, advance, step, process, process_buffer}
use ak.Protocol.Step.{measure, step-measure}

-- From `p` the loop returns in state `q`, with these frames dispatched.
pub data Runs : Protocol → Protocol → List Frame → Type 0 where
  stop : {p q : Protocol} → step p ≡ wait q → Runs p q []
  more :
      {p q r : Protocol} {fs gs hs : List Frame}
      → step p ≡ advance q fs
      → Runs q r gs
      → hs ≡ fs ++ gs
      → Runs p r hs

pub Outcome-cases :
    (o : Outcome)
    → ((q : Protocol) × (o ≡ wait q)) ⊎ ((q : Protocol) × (fs : List Frame) × (o ≡ advance q fs))
Outcome-cases (wait q) = inl (q, refl)
Outcome-cases (advance q fs) = inr (q, fs, refl)

-- Fuel above the measure is enough.
Runs-process :
    {p q : Protocol} {fs : List Frame}
    → Runs p q fs
    → (n : ℕ) → measure p < n
    → process n p ≡ some (q, fs)
unfolding process
Runs-process (stop e) zero h = elim h [ ]
Runs-process (stop e) (suc n) h = ground arith
Runs-process (more e r t) zero h = elim h [ ]
Runs-process (more {p} {q} e r t) (suc n) h =
    ground (arith, Runs-process r n (omega (arith, step-measure p e)))

-- The loop ends from every state.
Runs_total_below :
    (n : ℕ) (p : Protocol) → measure p < n → (q : Protocol) × (fs : List Frame) × Runs p q fs
Runs_total_below zero p h = elim h [ ]
Runs_total_below (suc n) p h = elim (Outcome-cases (step p)) [
  | inl (r, e) ↦ (r, [], stop e)
  | inr (r, gs, e) ↦
      let (q, fs, t) = Runs_total_below n r (omega (arith, step-measure p e)) in
      (q, gs ++ fs, more e t refl)
]

pub Runs_total : (p : Protocol) → (q : Protocol) × (fs : List Frame) × Runs p q fs
Runs_total p = Runs_total_below (suc (measure p)) p (omega arith)

-- `processBuffer` returns what the loop runs to.
pub Runs-process_buffer :
    {p q : Protocol} {fs : List Frame} → Runs p q fs → process_buffer p ≡ some (q, fs)
unfolding process_buffer
Runs-process_buffer {p} r = Runs-process r (2 * length p.buffer + 2) (ground arith)
