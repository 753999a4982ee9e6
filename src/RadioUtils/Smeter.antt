-- ===== src/RadioUtils/Smeter.antt =====
-- The S-meter scale: `smeterToUnits`, `smeterToString`.
use ak.Base.{ℕ, ◌-◌, ◌*◌, ◌/◌, ◌%◌, ◌≤◌, ◌<◌, ◌≡◌, ltb, leb, if◌then◌else◌, arith, ◌++◌}
use ak.Base.Int.{ℤ, pos, negsuc, ◌≤ℤ◌}
use ak.Base.Text.{Bytes, codes, decimal}

-- The raw value brought into 0..120.
unfoldable pub clamp_raw : ℤ → ℕ
clamp_raw (negsuc n) = 0
clamp_raw (pos n) = if ltb 120 n then 120 else n

-- The S-unit and the decibels above S9.
unfoldable pub smeter_to_units : ℤ → ℕ × ℕ
unfolding clamp_raw
smeter_to_units raw_value =
    let raw = clamp_raw raw_value in
    if leb raw 54
    then (if ltb 9 (raw / 6) then 9 else raw / 6, 0)
    else (9, if ltb 60 ((raw - 54) / 10 * 10) then 60 else (raw - 54) / 10 * 10)

unfoldable pub smeter_to_string : ℤ → Bytes
unfolding smeter_to_units
smeter_to_string raw_value =
    let (s_unit, db_over) = smeter_to_units raw_value in
    if ltb 0 db_over then codes "S9+" ++ decimal db_over else codes "S" ++ decimal s_unit

-- For every raw value, in range or not: at most S9, at most 60 dB above in whole tens, and decibels
-- only above S9.
pub smeter_to_units_bounds :
    (raw : ℤ)
    → let (s_unit, db_over) = smeter_to_units raw in
      (s_unit ≤ 9) × (db_over ≤ 60) × (db_over % 10 ≡ 0) × (0 < db_over → s_unit ≡ 9)
unfolding smeter_to_units
smeter_to_units_bounds (pos n) = ground arith
smeter_to_units_bounds (negsuc n) = ground arith

-- Of two raw values the larger reads no fewer S-units and no fewer decibels.
pub smeter_to_units_mono :
    (a b : ℤ)
    → a ≤ℤ b
    → ((smeter_to_units a).0 ≤ (smeter_to_units b).0)
      × ((smeter_to_units a).1 ≤ (smeter_to_units b).1)
unfolding smeter_to_units
smeter_to_units_mono (pos a) (pos b) h = ground arith
smeter_to_units_mono (pos a) (negsuc b) h = absurd (omega arith)
smeter_to_units_mono (negsuc a) b h = ground arith
