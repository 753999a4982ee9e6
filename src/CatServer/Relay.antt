-- ===== src/CatServer/Relay.antt =====
-- Frequency reports on their way through the engine to the programs that ask the CAT server.
use ak.Base.{ℕ, ◌^◌, ◌<◌, ◌≡◌, refl, ap, ◌∙◌, some, List, [], ◌∷◌, ◌++◌, arith, true}
use ak.Base.Int.{pos}
use ak.Base.Text.{Bytes, codes, print_padded, equal}
use ak.Protocol.RoundTrip.{encode_all, Fit, IsIdle}
use ak.Protocol.Stream.{IsNoise}
use ak.Protocol.Chunks.{Small, concat}
use ak.RadioState.{RadioStateData, get_vfo, put_vfo}
use ak.RadioState.Setters.{set_frequency}
use ak.RadioState.Cat.{parse_cat_command}
use ak.RadioState.Commands.{parse_all, parse_frequency_report}
use ak.Engine.{Engine, returns}
use ak.Engine.Frames.{Decoder}
use ak.Engine.Reading.{Ready, on_chunks}
use ak.Engine.Reports.{cat_responses, on_chunks-reports}
use ak.CatServer.{handle_query}
use ak.CatServer.Answers.{ask, answer_frequency-eq}

-- The report of a frequency as the radio prints it.
abbrev pub frequency_report : Bytes → ℕ → Bytes
frequency_report prefix f = prefix ++ (print_padded 11 (pos f) ++ codes ";")

-- Some reports, then those of both frequencies.
unfoldable pub then_frequencies : List Bytes → ℕ → ℕ → List Bytes
then_frequencies [] a b = frequency_report (codes "FA") a ∷ frequency_report (codes "FB") b ∷ []
then_frequencies (t ∷ ts) a b = t ∷ then_frequencies ts a b

ask-frequency_report :
    (s : RadioStateData) (a b : ℕ)
    → s.vfo_a.frequency_hz ≡ pos a
    → s.vfo_b.frequency_hz ≡ pos b
    → a < 10 ^ 16
    → b < 10 ^ 16
    → (ask (codes "FA;") s ≡ frequency_report (codes "FA") a)
      × (ask (codes "FB;") s ≡ frequency_report (codes "FB") b)
unfolding handle_query equal get_vfo
ask-frequency_report s a b ea eb ha hb = (
  rw ea (answer_frequency-eq (codes "FA") a refl ha),
  rw eb (answer_frequency-eq (codes "FB") b refl hb),
)

set_frequency_a :
    (a : ℕ) (s : RadioStateData) → (set_frequency (pos 0) (pos a) s).0.vfo_a.frequency_hz ≡ pos a
unfolding set_frequency get_vfo put_vfo
set_frequency_a a s = ground arith

set_frequency_b :
    (b : ℕ) (s : RadioStateData)
    → ((set_frequency (pos 1) (pos b) s).0.vfo_b.frequency_hz ≡ pos b)
      × ((set_frequency (pos 1) (pos b) s).0.vfo_a ≡ s.vfo_a)
unfolding set_frequency get_vfo put_vfo
set_frequency_b b s = (ground arith, ground arith)

both_reports :
    (s : RadioStateData) (a b : ℕ)
    → a < 10 ^ 16
    → b < 10 ^ 16
    → parse_all (then_frequencies [] a b) s
      ≡ (set_frequency (pos 1) (pos b) (set_frequency (pos 0) (pos a) s).0).0
unfolding parse_all then_frequencies
both_reports s a b ha hb =
    let q = (set_frequency (pos 0) (pos a) s).0 in
    ap (λ c. (parse_cat_command (frequency_report (codes "FB") b) c.0).0)
      ((parse_frequency_report (pos a) s (omega arith)).0)
    ∙ ap (λ c. c.0) ((parse_frequency_report (pos b) q (omega arith)).1)

parse_all-then_frequencies :
    (ts : List Bytes) (s : RadioStateData) (a b : ℕ)
    → a < 10 ^ 16
    → b < 10 ^ 16
    → ((parse_all (then_frequencies ts a b) s).vfo_a.frequency_hz ≡ pos a)
      × ((parse_all (then_frequencies ts a b) s).vfo_b.frequency_hz ≡ pos b)
unfolding parse_all then_frequencies
parse_all-then_frequencies [] s a b ha hb =
    let same = both_reports s a b ha hb in
    let (fb, kept) = set_frequency_b b (set_frequency (pos 0) (pos a) s).0 in
    (
      ap (λ r. r.vfo_a.frequency_hz) same ∙ ap (λ v. v.frequency_hz) kept ∙ set_frequency_a a s,
      ap (λ r. r.vfo_b.frequency_hz) same ∙ fb,
    )
parse_all-then_frequencies (t ∷ ts) s a b ha hb =
    parse_all-then_frequencies ts (parse_cat_command t s).0 a b ha hb

on_chunks-then_frequencies :
    (decode : Decoder) (cs : List Bytes) (g : Bytes) (ts : List Bytes) (a b : ℕ) (e : Engine)
    → Ready e
    → IsIdle e.protocol
    → e.protocol.has_callback ≡ true
    → IsNoise g
    → Fit (cat_responses (then_frequencies ts a b))
    → Small cs
    → concat cs ≡ g ++ encode_all (cat_responses (then_frequencies ts a b))
    → (q : Engine) × (on_chunks decode cs e ≡ some (returns q))
      × (q.radio ≡ parse_all (then_frequencies ts a b) e.radio)
unfolding then_frequencies
on_chunks-then_frequencies decode cs g [] a b e h v c noise fit small same =
    let r =
      on_chunks-reports decode cs g (frequency_report (codes "FA") a)
        (frequency_report (codes "FB") b ∷ []) e h v c noise fit small same in
    (r.0, r.1, r.3)
on_chunks-then_frequencies decode cs g (t ∷ ts) a b e h v c noise fit small same =
    let r =
      on_chunks-reports decode cs g t (then_frequencies ts a b) e h v c noise fit small same in
    (r.0, r.1, r.3)

-- An engine between two calls, its parser at rest with its callback set, is given by the socket, in
-- reads of at most 1 MiB that cut them anywhere, some noise and behind it the encodings of any CAT
-- reports that fit a frame, of which the last two are those of the frequencies of the VFOs, below
-- 10^16 Hz. Then the read loop's calls return, and a CAT server on the radio's state that they leave
-- answers the queries of the frequencies with the text of these two reports.
pub on_chunks-ask :
    (decode : Decoder) (cs : List Bytes) (g : Bytes) (ts : List Bytes) (a b : ℕ) (e : Engine)
    → Ready e
    → IsIdle e.protocol
    → e.protocol.has_callback ≡ true
    → IsNoise g
    → Fit (cat_responses (then_frequencies ts a b))
    → Small cs
    → concat cs ≡ g ++ encode_all (cat_responses (then_frequencies ts a b))
    → a < 10 ^ 16
    → b < 10 ^ 16
    → (q : Engine) × (on_chunks decode cs e ≡ some (returns q))
      × (ask (codes "FA;") q.radio ≡ frequency_report (codes "FA") a)
      × (ask (codes "FB;") q.radio ≡ frequency_report (codes "FB") b)
on_chunks-ask decode cs g ts a b e h v c noise fit small same ha hb =
    let (q, ran, radio) =
      on_chunks-then_frequencies decode cs g ts a b e h v c noise fit small same in
    let (fa, fb) = parse_all-then_frequencies ts e.radio a b ha hb in
    let answers =
      ask-frequency_report q.radio a b (ap (λ r. r.vfo_a.frequency_hz) radio ∙ fa)
        (ap (λ r. r.vfo_b.frequency_hz) radio ∙ fb) ha hb in
    (q, ran, answers.0, answers.1)
