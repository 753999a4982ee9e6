-- ===== src/RadioState/Cat.antt =====
-- `RadioState::parseCatCommand`: what a CAT command from the radio changes.
use ak.Base.{
  ◌-◌, ◌&&◌, ◌||◌, Option, none, some, [], ◌∷◌, ltb, leb, ◌==◌, if◌then◌else◌, length, take, drop,
}
use ak.Base.Int.{ℤ, pos}
use ak.Base.Text.{Bytes, codes, stoll, stoi, equal}
use ak.RadioState.{RadioStateData, Change}
use ak.RadioState.Setters.{set_frequency, set_mode, set_smeter, set_ptt, set_power}

-- `if (!value.empty() && value.back() == ';') value.pop_back();`
unfoldable pub pop_semicolon : Bytes → Bytes
pop_semicolon [] = []
pop_semicolon (c ∷ []) = if c == b';' then [] else c ∷ []
pop_semicolon (c ∷ d ∷ cs) = c ∷ pop_semicolon (d ∷ cs)

-- The program's mode for the radio's number; `none` is the switch's `default: return`.
unfoldable pub map_mode : ℤ → Option ℤ
map_mode (pos k) =
    if k == 1
    then some (pos 0)
    else if k == 2
    then some (pos 1)
    else if k == 3
    then some (pos 2)
    else if k == 4
    then some (pos 7)
    else if k == 5
    then some (pos 6)
    else if k == 6
    then some (pos 4)
    else if k == 7
    then some (pos 3)
    else if k == 9
    then some (pos 5)
    else none
map_mode _ = none

-- The branch of each prefix, given the text behind it; the number that a `try` reads is an option.
unfoldable pub parse_frequency : ℤ → Bytes → RadioStateData → Change
parse_frequency vfo value s = elim (stoll value) [
  | none ↦ (s, [])
  | some freq ↦ set_frequency vfo freq s
]

unfoldable pub parse_mode : Bytes → RadioStateData → Change
parse_mode value s = elim (stoi value) [
  | none ↦ (s, [])
  | some mode ↦ elim (map_mode mode) [ none ↦ (s, []) | some mapped ↦ set_mode (pos 0) mapped s ]
]

-- `value[0]` is the VFO: a digit 0 or 1.
unfoldable pub parse_smeter : Bytes → RadioStateData → Change
parse_smeter [] s = (s, [])
parse_smeter (c ∷ digits) s = elim (stoi digits) [
  | none ↦ (s, [])
  | some meter ↦ if c == b'0' || c == b'1' then set_smeter (pos (c - b'0')) meter s else (s, [])
]

unfoldable pub parse_tx : Bytes → RadioStateData → Change
parse_tx [] s = (s, [])
parse_tx (c ∷ cs) s = set_ptt (c == b'1') s

unfoldable pub parse_power : Bytes → RadioStateData → Change
parse_power value s = elim (stoi value) [ none ↦ (s, []) | some watts ↦ set_power watts s ]

unfoldable pub parse_cat_command : Bytes → RadioStateData → Change
parse_cat_command command s =
    if ltb (length command) 2
    then (s, [])
    else (let prefix = take 2 command in
        let value = pop_semicolon (drop 2 command) in
        if equal prefix (codes "FA") && leb 11 (length value)
        then parse_frequency (pos 0) value s
        else if equal prefix (codes "FB") && leb 11 (length value)
        then parse_frequency (pos 1) value s
        else if equal prefix (codes "MD") && ltb 0 (length value)
        then parse_mode value s
        else if equal prefix (codes "SM") && leb 4 (length value)
        then parse_smeter value s
        else if equal prefix (codes "TQ") && ltb 0 (length value)
        then parse_tx value s
        else if equal prefix (codes "PC") && ltb 0 (length value)
        then parse_power value s
        else (s, []))
