-- ===== src/RadioState/Receivers.antt =====
-- The setters of the noise reduction of a receiver, and those that replace a subsystem's data and
-- notify in any case: `radio_state.cpp`.
use ak.Base.{Bool, [], ◌∷◌, if◌then◌else◌}
use ak.Base.Int.{ℤ, pos, eq_ℤ, clamp}
use ak.RadioState.{RadioStateData, KpaState, Change, is_zero, get_nr, put_nr}
use ak.RadioState.Setters.{eq_bool}

unfoldable pub set_nr_enabled : ℤ → ℤ → Bool → RadioStateData → Change
set_nr_enabled receiver algorithm enabled s =
    let nr = get_nr receiver s in
    if is_zero algorithm
    then if eq_bool nr.lms_enabled enabled then (s, []) else (
      put_nr receiver (record nr { lms_enabled = enabled }) s,
      (if is_zero receiver then "nr.main.lms.en" else "nr.sub.lms.en") ∷ [],
    )
    else if eq_bool nr.ssnr_enabled enabled
    then (s, [])
    else (
      put_nr receiver (record nr { ssnr_enabled = enabled }) s,
      (if is_zero receiver then "nr.main.ssnr.en" else "nr.sub.ssnr.en") ∷ [],
    )

unfoldable pub set_nr_level : ℤ → ℤ → ℤ → RadioStateData → Change
set_nr_level receiver algorithm value s =
    let level = clamp value (pos 1) (pos 10) in
    let nr = get_nr receiver s in
    if is_zero algorithm
    then if eq_ℤ nr.lms_level level then (s, []) else (
      put_nr receiver (record nr { lms_level = level }) s,
      (if is_zero receiver then "nr.main.lms.lvl" else "nr.sub.lms.lvl") ∷ [],
    )
    else if eq_ℤ nr.ssnr_level level
    then (s, [])
    else (
      put_nr receiver (record nr { ssnr_level = level }) s,
      (if is_zero receiver then "nr.main.ssnr.lvl" else "nr.sub.ssnr.lvl") ∷ [],
    )

unfoldable pub set_kpa_state : KpaState → RadioStateData → Change
set_kpa_state state s = (record s { kpa = state }, "kpa" ∷ [])

unfoldable pub set_connection_state : ℤ → ℤ → RadioStateData → Change
set_connection_state state attempts s = (
  record s { connection = record (s.connection) { state = state; reconnect_attempts = attempts } },
  "connection" ∷ [],
)

unfoldable pub set_cat_state : Bool → ℤ → RadioStateData → Change
set_cat_state running clients s =
    (record s { cat = record (s.cat) { running = running; client_count = clients } }, "cat" ∷ [])

unfoldable pub set_dx_cluster_state : Bool → ℤ → RadioStateData → Change
set_dx_cluster_state connected spots s = (
  record s { dxcluster = record (s.dxcluster) { connected = connected; spot_count = spots } },
  "dxcluster" ∷ [],
)
