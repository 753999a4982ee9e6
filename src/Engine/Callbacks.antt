-- ===== src/Engine/Callbacks.antt =====
-- The callbacks that the application registers, and the methods of qk4_engine.cpp that are stubs.
-- Of a registered function, whether it is set is kept.
use mathlib.Core.Path.{subst}
use ak.Base.{ℕ, ◌≡◌, refl, sym, Bool, true, false, Option, none}
use ak.Base.Int.{ℤ, pos}
use ak.Base.Text.{Bytes}
use ak.Engine.{Engine, Run, returns, and_then, lock, unlock}
use ak.Engine.Frames.{Sound}
use ak.Engine.Local.{SameCore}
use ak.RadioState.Invariant.{IsValid}

-- `std::lock_guard<std::mutex> lock(m_cbMutex); m_stateCb = cb; ...`
unfoldable pub assign : (Engine → Engine) → Engine → Run Engine
unfolding and_then lock unlock
assign change e = and_then (lock e) (λ l. returns (unlock (change l)))

unfoldable pub set_state_callback : Bool → Engine → Run Engine
set_state_callback cb e = assign (λ l. record l { state_cb = cb }) e

unfoldable pub set_spectrum_callback : Bool → Engine → Run Engine
set_spectrum_callback cb e = assign (λ l. record l { spectrum_cb = cb }) e

unfoldable pub set_audio_callback : Bool → Engine → Run Engine
set_audio_callback cb e = assign (λ l. record l { audio_cb = cb }) e

unfoldable pub set_error_callback : Bool → Engine → Run Engine
set_error_callback cb e = assign (λ l. record l { error_cb = cb }) e

unfoldable pub set_connection_callback : Bool → Engine → Run Engine
set_connection_callback cb e = assign (λ l. record l { connection_cb = cb }) e

unfoldable pub set_spot_callback : Bool → Engine → Run Engine
set_spot_callback cb e = assign (λ l. record l { spot_cb = cb }) e

unfoldable pub set_kpa_status_callback : Bool → Engine → Run Engine
set_kpa_status_callback cb e = assign (λ l. record l { kpa_status_cb = cb }) e

-- A pointer: `none` is the null pointer.
unfoldable pub start_discovery : Bool → Engine → Option ℕ
start_discovery cb e = none

unfoldable pub cat_start : ℕ → ℤ → Engine → ℤ × Engine
cat_start port max_clients e = (pos 0, e)

unfoldable pub cat_stop : Engine → Engine
cat_stop e = e

unfoldable pub cat_get_client_count : Engine → ℤ
cat_get_client_count e = pos 0

unfoldable pub dx_cluster_connect : Bytes → ℕ → Bytes → Engine → ℤ × Engine
dx_cluster_connect host port callsign e = (pos 0, e)

unfoldable pub dx_cluster_disconnect : Engine → Engine
dx_cluster_disconnect e = e

unfoldable pub kpa_connect : Engine → ℤ × Engine
kpa_connect e = (pos 0, e)

unfoldable pub kpa_disconnect : Engine → Engine
kpa_disconnect e = e

unfoldable pub kpa_set_operate : Bool → Engine → ℤ × Engine
kpa_set_operate operate e = (pos 0, e)

unfoldable pub kpa_set_band : ℤ → Engine → ℤ × Engine
kpa_set_band band e = (pos 0, e)

-- The body of this method is a comment.
unfoldable pub set_jitter_buffer : ℤ → Engine → Engine
set_jitter_buffer ms e = e

pub assign-Sound :
    (change : Engine → Engine) (e : Engine)
    → ((l : Engine) → SameCore l (change l))
    → e.cb_locked ≡ false
    → IsValid e.radio
    → Sound e (assign change e)
unfolding assign lock unlock and_then
assign-Sound change e h u v =
    let same = h (record e { cb_locked = true }) in
    record {
      after = unlock (change (record e { cb_locked = true }));
      returned = rw u;
      unlocked = refl;
      same_protocol = same.protocol;
      same_link = same.link;
      valid = subst IsValid (sym same.radio) v;
    }
