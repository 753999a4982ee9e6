-- ===== src/RadioState/Commands.antt =====
-- What a CAT command does to the radio's state.
use ak.Base.{
  ℕ, suc, ◌-◌, ◌≤◌, ◌<◌, ◌≡◌, refl, ap, ◌∙◌, Bool, true, false, ◌⊎◌, inl, inr, List, [], ◌∷◌, ◌++◌,
  arith, length, Option-cases, Bool-cases, ◌==◌, ◌||◌, drop, if◌then◌else◌,
}
use ak.Base.Int.{ℤ, pos, negsuc}
use ak.Base.Text.{Bytes, codes, print_padded, stoll, stoi, equal}
use ak.Base.Decimal.{InRange, stoll-print_padded, length-padded_ge}
use ak.RadioState.{RadioStateData, Change}
use ak.RadioState.Setters.{set_frequency}
use ak.RadioState.Op.{Op, frequency, mode, smeter, ptt, power, apply}
use ak.RadioState.Invariant.{IsValid, apply-IsValid}
use ak.RadioState.Cat.{
  pop_semicolon, map_mode, parse_frequency, parse_mode, parse_smeter, parse_tx, parse_power,
  parse_cat_command,
}

-- Nothing happens, or one setter runs.
abbrev pub OneCall : RadioStateData → Change → Type 0
OneCall s c = (c ≡ (s, [])) ⊎ ((op : Op) × (c ≡ apply op s))

parse_frequency-OneCall :
    (vfo : ℤ) (v : Bytes) (s : RadioStateData) → OneCall s (parse_frequency vfo v s)
unfolding parse_frequency apply
parse_frequency-OneCall vfo v s = elim (Option-cases (stoll v)) [
  | inl e ↦ inl (rw (e, parse_frequency))
  | inr (f, e) ↦ inr (frequency vfo f, rw (e, parse_frequency))
]

parse_mode-OneCall : (v : Bytes) (s : RadioStateData) → OneCall s (parse_mode v s)
unfolding parse_mode apply
parse_mode-OneCall v s = elim (Option-cases (stoi v)) [
  | inl e ↦ inl (rw (e, parse_mode))
  | inr (m, e) ↦ elim (Option-cases (map_mode m)) [
    | inl f ↦ inl (rw (e, parse_mode, f))
    | inr (k, f) ↦ inr (mode (pos 0) k, rw (e, parse_mode, f))
  ]
]

parse_smeter-OneCall : (v : Bytes) (s : RadioStateData) → OneCall s (parse_smeter v s)
unfolding parse_smeter apply
parse_smeter-OneCall [] s = inl refl
parse_smeter-OneCall (c ∷ v) s = elim (Option-cases (stoi v)) [
  | inl e ↦ inl (rw (e, parse_smeter))
  | inr (m, e) ↦ elim (Bool-cases (c == b'0' || c == b'1')) [
    | inl t ↦ inr (smeter (pos (c - b'0')) m, rw (e, parse_smeter, t))
    | inr t ↦ inl (rw (e, parse_smeter, t))
  ]
]

parse_tx-OneCall : (v : Bytes) (s : RadioStateData) → OneCall s (parse_tx v s)
unfolding parse_tx apply
parse_tx-OneCall [] s = inl refl
parse_tx-OneCall (c ∷ v) s = inr (ptt (c == b'1'), refl)

parse_power-OneCall : (v : Bytes) (s : RadioStateData) → OneCall s (parse_power v s)
unfolding parse_power apply
parse_power-OneCall v s = elim (Option-cases (stoi v)) [
  | inl e ↦ inl (rw (e, parse_power))
  | inr (f, e) ↦ inr (power f, rw (e, parse_power))
]

if-OneCall :
    (b : Bool) {s : RadioStateData} {x y : Change}
    → OneCall s x
    → OneCall s y
    → OneCall s (if b then x else y)
if-OneCall true h k = h
if-OneCall false h k = k

-- Any bytes at all: a command, well formed or not, changes nothing and notifies nothing, or it is one
-- call of one setter.
pub parse_cat_command-OneCall :
    (command : Bytes) (s : RadioStateData) → OneCall s (parse_cat_command command s)
unfolding parse_cat_command
parse_cat_command-OneCall command s =
    let value = pop_semicolon (drop 2 command) in
    if-OneCall _ (inl refl) (
      if-OneCall _ (parse_frequency-OneCall (pos 0) value s) (
        if-OneCall _ (parse_frequency-OneCall (pos 1) value s) (
          if-OneCall _ (parse_mode-OneCall value s) (
            if-OneCall _ (parse_smeter-OneCall value s) (
              if-OneCall _ (parse_tx-OneCall value s)
                (if-OneCall _ (parse_power-OneCall value s) (inl refl)))))))

-- One command of any bytes keeps the ranges and the one active VFO.
pub parse_cat_command-IsValid :
    (command : Bytes) (s : RadioStateData) → IsValid s → IsValid (parse_cat_command command s).0
parse_cat_command-IsValid c s v = elim (parse_cat_command-OneCall c s) [
  | inl e ↦ rw e v
  | inr (op, e) ↦ rw e (apply-IsValid op s v)
]

-- The data behind a sequence of commands from the radio.
unfoldable pub parse_all : List Bytes → RadioStateData → RadioStateData
parse_all [] s = s
parse_all (c ∷ cs) s = parse_all cs (parse_cat_command c s).0

-- From data within the ranges of `IsValid`, whatever commands the radio sends, the ranges and the
-- one active VFO are kept.
pub parse_all-IsValid :
    (commands : List Bytes) (s : RadioStateData) → IsValid s → IsValid (parse_all commands s)
unfolding parse_all
parse_all-IsValid [] s v = v
parse_all-IsValid (c ∷ cs) s v =
    parse_all-IsValid cs (parse_cat_command c s).0 (parse_cat_command-IsValid c s v)

pop_semicolon-append : (t : Bytes) → pop_semicolon (t ++ (b';' ∷ [])) ≡ t
unfolding pop_semicolon
pop_semicolon-append [] = refl
pop_semicolon-append (c ∷ []) = refl
pop_semicolon-append (c ∷ d ∷ t) = ap (λ x. c ∷ x) (pop_semicolon-append (d ∷ t))

pub length-print_padded : (w : ℕ) (z : ℤ) → w ≤ length (print_padded w z)
unfolding print_padded
length-print_padded w (pos n) = length-padded_ge w n
length-print_padded w (negsuc n) = omega (arith, length-padded_ge (w - 1) (suc n))

-- The branch that each prefix takes, given enough text behind it.
command_fa :
    (t : Bytes) (s : RadioStateData)
    → 11 ≤ length t
    → parse_cat_command (codes "FA" ++ (t ++ (b';' ∷ []))) s ≡ parse_frequency (pos 0) t s
unfolding parse_cat_command equal
command_fa t s h = ground (arith, pop_semicolon-append t)

command_fb :
    (t : Bytes) (s : RadioStateData)
    → 11 ≤ length t
    → parse_cat_command (codes "FB" ++ (t ++ (b';' ∷ []))) s ≡ parse_frequency (pos 1) t s
unfolding parse_cat_command equal
command_fb t s h = ground (arith, pop_semicolon-append t)

pub command_md :
    (t : Bytes) (s : RadioStateData)
    → 0 < length t
    → parse_cat_command (codes "MD" ++ (t ++ (b';' ∷ []))) s ≡ parse_mode t s
unfolding parse_cat_command equal
command_md t s h = ground (arith, pop_semicolon-append t)

pub command_sm :
    (t : Bytes) (s : RadioStateData)
    → 4 ≤ length t
    → parse_cat_command (codes "SM" ++ (t ++ (b';' ∷ []))) s ≡ parse_smeter t s
unfolding parse_cat_command equal
command_sm t s h = ground (arith, pop_semicolon-append t)

pub command_pc :
    (t : Bytes) (s : RadioStateData)
    → 0 < length t
    → parse_cat_command (codes "PC" ++ (t ++ (b';' ∷ []))) s ≡ parse_power t s
unfolding parse_cat_command equal
command_pc t s h = ground (arith, pop_semicolon-append t)

parse_frequency-print_padded :
    (vfo freq : ℤ) (s : RadioStateData)
    → InRange 63 freq
    → parse_frequency vfo (print_padded 11 freq) s ≡ set_frequency vfo freq s
unfolding parse_frequency
parse_frequency-print_padded vfo freq s h = rw (stoll-print_padded 11 freq h, parse_frequency)

pub parse_frequency_report :
    (freq : ℤ) (s : RadioStateData)
    → InRange 63 freq
    → (parse_cat_command (codes "FA" ++ (print_padded 11 freq ++ (b';' ∷ []))) s
        ≡ set_frequency (pos 0) freq s)
      × (parse_cat_command (codes "FB" ++ (print_padded 11 freq ++ (b';' ∷ []))) s
          ≡ set_frequency (pos 1) freq s)
parse_frequency_report freq s h = (
  command_fa _ s (length-print_padded 11 freq) ∙ parse_frequency-print_padded (pos 0) freq s h,
  command_fb _ s (length-print_padded 11 freq) ∙ parse_frequency-print_padded (pos 1) freq s h,
)
