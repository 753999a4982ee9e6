-- ===== src/CatServer/Answers.antt =====
-- The server's answers (cat_server.cpp) as reports for `RadioState::parseCatCommand`.
use ak.Base.{
  ℕ, zero, suc, ◌^◌, ◌≤◌, ◌<◌, ◌≡◌, refl, ap, ◌∙◌, Bool, true, false, [], ◌∷◌, ◌++◌, some, arith,
  length, length-append, take, if◌then◌else◌,
}
use ak.Base.Int.{pos}
use ak.Base.Text.{Bytes, codes, print_padded, padded, decimal, snprintf, equal, stoi, scan}
use ak.Base.Decimal.{length-padded_le, stoi-print_padded, length-padded_ge}
use ak.RadioState.{RadioStateData, get_vfo}
use ak.RadioState.Setters.{set_frequency, set_mode, set_smeter, set_ptt, set_power}
use ak.RadioState.Cat.{
  parse_cat_command, parse_smeter, parse_power, parse_mode, parse_tx, map_mode, pop_semicolon,
}
use ak.RadioState.Commands.{parse_frequency_report, command_sm, command_pc}
use ak.CatServer.{
  handle_query, answer_frequency, answer_mode, answer_smeter, answer_tx, answer_power, k4_mode,
}

-- Text that fits the buffer is not cut.
pub take_all : (n : ℕ) (xs : Bytes) → length xs ≤ n → take n xs ≡ xs
take_all zero [] h = refl
take_all zero (x ∷ xs) h = absurd (omega arith)
take_all (suc n) [] h = refl
take_all (suc n) (x ∷ xs) h = ap (λ t. x ∷ t) (take_all n xs (omega arith))

-- What the server answers to a query.
abbrev pub ask : Bytes → RadioStateData → Bytes
ask query s = (handle_query false (some s) query).response

pub answer_frequency-eq :
    (prefix : Bytes) (f : ℕ)
    → length prefix ≡ 2
    → f < 10 ^ 16
    → answer_frequency prefix (pos f) ≡ prefix ++ (print_padded 11 (pos f) ++ (b';' ∷ []))
unfolding answer_frequency print_padded
answer_frequency-eq prefix f e h = take_all 19 _ (
    omega (
      arith,
      length-append prefix (padded 11 f ++ (b';' ∷ [])),
      length-append (padded 11 f) (b';' ∷ []),
      length-padded_le 11 15 f (omega arith) h,
    ))

-- Asked for the frequencies, the server reports those of its radio: a program that reads the
-- reports as this one does sets the same frequencies, for every frequency that is not negative and
-- below 10^16 Hz.
pub ask_frequency :
    (s t : RadioStateData) (a b : ℕ)
    → s.vfo_a.frequency_hz ≡ pos a
    → s.vfo_b.frequency_hz ≡ pos b
    → a < 10 ^ 16
    → b < 10 ^ 16
    → (parse_cat_command (ask (codes "FA;") s) t ≡ set_frequency (pos 0) (pos a) t)
      × (parse_cat_command (ask (codes "FB;") s) t ≡ set_frequency (pos 1) (pos b) t)
unfolding handle_query equal get_vfo
ask_frequency s t a b ea eb ha hb = (
  rw (ea, answer_frequency-eq (codes "FA") a refl ha)
      ((parse_frequency_report (pos a) t (omega arith)).0),
  rw (eb, answer_frequency-eq (codes "FB") b refl hb)
      ((parse_frequency_report (pos b) t (omega arith)).1),
)

abbrev mode_report : ℕ → Bytes
mode_report m = snprintf 8 (codes "MD" ++ (decimal (k4_mode (pos m)) ++ (b';' ∷ [])))

parse-mode_report :
    (m : ℕ) (t : RadioStateData)
    → m ≤ 7
    → parse_cat_command (mode_report m) t ≡ set_mode (pos 0) (pos m) t
unfolding parse_cat_command equal parse_mode pop_semicolon map_mode k4_mode decimal stoi scan
parse-mode_report zero t h = refl
parse-mode_report (suc zero) t h = refl
parse-mode_report (suc (suc zero)) t h = refl
parse-mode_report (suc (suc (suc zero))) t h = refl
parse-mode_report (suc (suc (suc (suc zero)))) t h = refl
parse-mode_report (suc (suc (suc (suc (suc zero))))) t h = refl
parse-mode_report (suc (suc (suc (suc (suc (suc zero)))))) t h = refl
parse-mode_report (suc (suc (suc (suc (suc (suc (suc zero))))))) t h = refl
parse-mode_report (suc (suc (suc (suc (suc (suc (suc (suc m)))))))) t h = absurd (omega arith)

-- For each of the program's eight modes the server's answer is read back as that mode.
pub ask_mode :
    (s t : RadioStateData) (m : ℕ)
    → s.vfo_a.mode ≡ pos m
    → m ≤ 7
    → parse_cat_command (ask (codes "MD;") s) t ≡ set_mode (pos 0) (pos m) t
unfolding handle_query equal get_vfo answer_mode
ask_mode s t m e h = rw e (parse-mode_report m t h)

smeter_report :
    (m : ℕ) (t : RadioStateData)
    → m < 10 ^ 7
    → parse_cat_command (snprintf 12 (codes "SM0" ++ (print_padded 4 (pos m) ++ (b';' ∷ [])))) t
      ≡ set_smeter (pos 0) (pos m) t
unfolding parse_smeter
smeter_report m t h =
    let n = length-padded_le 4 6 m (omega arith) h in
    let w = length-padded_ge 4 m in
    rw
      (take_all 11 (codes "SM0" ++ (print_padded 4 (pos m) ++ (b';' ∷ [])))
        (unfold print_padded in omega (arith, length-append (padded 4 m) (b';' ∷ []))))
      (command_sm (b'0' ∷ print_padded 4 (pos m)) t (unfold print_padded in omega arith)
        ∙ rw (stoi-print_padded 4 (pos m) (omega arith), parse_smeter))

power_report :
    (w : ℕ) (t : RadioStateData)
    → w < 10 ^ 8
    → parse_cat_command (snprintf 12 (codes "PC" ++ (print_padded 3 (pos w) ++ (b';' ∷ [])))) t
      ≡ set_power (pos w) t
unfolding parse_power
power_report w t h =
    let n = length-padded_le 3 7 w (omega arith) h in
    let k = length-padded_ge 3 w in
    rw
      (take_all 11 (codes "PC" ++ (print_padded 3 (pos w) ++ (b';' ∷ [])))
        (unfold print_padded in omega (arith, length-append (padded 3 w) (b';' ∷ []))))
      (command_pc (print_padded 3 (pos w)) t (unfold print_padded in omega arith)
        ∙ rw (stoi-print_padded 3 (pos w) (omega arith), parse_power))

tx_report :
    (b : Bool) (t : RadioStateData)
    → parse_cat_command (if b then codes "TQ1;" else codes "TQ0;") t ≡ set_ptt b t
unfolding parse_cat_command equal parse_tx pop_semicolon
tx_report true t = refl
tx_report false t = refl

-- A signal strength below 10^7 and a power below 10^8 that the server answers are read back as
-- they are, and so is the transmit state.
pub ask_meters :
    (s t : RadioStateData) (m w : ℕ)
    → s.vfo_a.smeter ≡ pos m
    → s.tx.power_watts ≡ pos w
    → m < 10 ^ 7
    → w < 10 ^ 8
    → (parse_cat_command (ask (codes "SM;") s) t ≡ set_smeter (pos 0) (pos m) t)
      × (parse_cat_command (ask (codes "PC;") s) t ≡ set_power (pos w) t)
      × (parse_cat_command (ask (codes "TQ;") s) t ≡ set_ptt s.tx.ptt t)
unfolding handle_query equal get_vfo answer_smeter answer_power answer_tx
ask_meters s t m w em ew hm hw =
    (rw em (smeter_report m t hm), rw ew (power_report w t hw), tx_report s.tx.ptt t)
