-- ===== src/RadioState.antt =====
-- core/src/models/radio_state.{h,cpp}: what the program knows of the radio. A signed integer field
-- is an integer, and a `float`, which is only copied, is its bit pattern. A method returns the new
-- data and the keys that it calls `notify` with, in order; the mutex is held for the whole of each
-- method, so that a method is one step.
pub mod Setters
pub mod Receivers
pub mod Op
pub mod Laws
pub mod Invariant
pub mod Cat
pub mod Commands
pub mod Reports
mod Tests
use Prim.Native.String.{String}
use ak.Base.{ℕ, ◌+◌, ◌%◌, Bool, true, false, List, ◌==◌, if◌then◌else◌}
use ak.Base.Int.{ℤ, pos, negsuc}

pub record VfoState : Type 0 where
  pub frequency_hz : ℤ
  pub mode : ℤ
  pub filter_bw_hz : ℤ
  pub agc_mode : ℤ
  pub smeter : ℤ
  pub tuning_rate : ℤ
  pub active : Bool
  pub sub_on : Bool

pub record TxState : Type 0 where
  pub ptt : Bool
  pub tune : Bool
  pub power_watts : ℤ
  pub swr_x10 : ℤ
  pub pa_current_ma : ℤ

pub record SpectrumDisplayState : Type 0 where
  pub span_hz : ℤ
  pub center_hz : ℤ
  pub ref_level_db : ℤ
  pub bin_count : ℤ

pub record AudioState : Type 0 where
  pub main_volume : ℤ
  pub sub_volume : ℤ
  pub sidetone_hz : ℤ
  pub jitter_ms : ℤ

pub record NrState : Type 0 where
  pub lms_enabled : Bool
  pub lms_level : ℤ
  pub ssnr_enabled : Bool
  pub ssnr_level : ℤ

pub record CwState : Type 0 where
  pub speed_wpm : ℤ
  pub iambic_mode : ℤ

pub record KpaState : Type 0 where
  pub connected : Bool
  pub operate : Bool
  pub fwd_watts : ℕ
  pub ref_watts : ℕ
  pub swr : ℕ
  pub temp_c : ℕ
  pub band : ℤ
  pub fault_code : ℤ

pub record ConnectionState : Type 0 where
  pub state : ℤ
  pub reconnect_attempts : ℤ
  pub last_keepalive_ms : ℤ

pub record CatServerState : Type 0 where
  pub running : Bool
  pub client_count : ℤ
  pub port : ℕ

pub record DxClusterState : Type 0 where
  pub connected : Bool
  pub spot_count : ℤ

-- `vfo[2]` and `nr[2]` are two fields each.
pub record RadioStateData : Type 0 where
  pub vfo_a : VfoState
  pub vfo_b : VfoState
  pub tx : TxState
  pub spectrum : SpectrumDisplayState
  pub audio : AudioState
  pub nr_main : NrState
  pub nr_sub : NrState
  pub cw : CwState
  pub kpa : KpaState
  pub connection : ConnectionState
  pub cat : CatServerState
  pub dxcluster : DxClusterState

-- The member initialisers.
abbrev default_vfo : VfoState
default_vfo = record {
  frequency_hz = pos 14225000;
  mode = pos 1;
  filter_bw_hz = pos 2800;
  agc_mode = pos 1;
  smeter = pos 0;
  tuning_rate = pos 100;
  active = true;
  sub_on = false;
}

abbrev default_nr : NrState
default_nr = record {
  lms_enabled = false;
  lms_level = pos 5;
  ssnr_enabled = false;
  ssnr_level = pos 5;
}

-- `RadioState::RadioState`
abbrev pub initial : RadioStateData
initial = record {
  vfo_a = record default_vfo {
    active = true;
    frequency_hz = pos 14225000;
    mode = pos 1;
    tuning_rate = pos 100;
  };
  vfo_b = record default_vfo {
    active = false;
    frequency_hz = pos 7040000;
    mode = pos 2;
    tuning_rate = pos 100;
    sub_on = false;
  };
  tx = record {
    ptt = false;
    tune = false;
    power_watts = pos 10;
    swr_x10 = pos 10;
    pa_current_ma = pos 0;
  };
  spectrum = record {
    span_hz = pos 100000;
    center_hz = pos 14175000;
    ref_level_db = pos 0;
    bin_count = pos 480;
  };
  audio = record {
    main_volume = pos 50;
    sub_volume = pos 50;
    sidetone_hz = pos 600;
    jitter_ms = pos 40;
  };
  nr_main = default_nr;
  nr_sub = default_nr;
  cw = record { speed_wpm = pos 20; iambic_mode = pos 0 };
  kpa = record {
    connected = false;
    operate = false;
    fwd_watts = 0;
    ref_watts = 0;
    swr = 0x3F800000;
    temp_c = 0x41C80000;
    band = pos 5;
    fault_code = pos 0;
  };
  connection = record { state = pos 0; reconnect_attempts = pos 0; last_keepalive_ms = pos 0 };
  cat = record { running = false; client_count = pos 0; port = 9299 };
  dxcluster = record { connected = false; spot_count = pos 0 };
}

-- The new data and the keys notified.
abbrev pub Change : Type 0
Change = RadioStateData × List String

-- `i & 1` of an `int`, as the test for zero.
abbrev pub is_even : ℤ → Bool
is_even (pos n) = n % 2 == 0
is_even (negsuc n) = (n + 1) % 2 == 0

abbrev pub is_zero : ℤ → Bool
is_zero (pos n) = n == 0
is_zero (negsuc n) = false

-- `m_data.vfo[vfo & 1]`, read and written.
unfoldable pub get_vfo : ℤ → RadioStateData → VfoState
get_vfo vfo s = if is_even vfo then s.vfo_a else s.vfo_b

unfoldable pub put_vfo : ℤ → VfoState → RadioStateData → RadioStateData
put_vfo vfo v s = if is_even vfo then record s { vfo_a = v } else record s { vfo_b = v }

-- `m_data.nr[receiver & 1]`, read and written.
unfoldable pub get_nr : ℤ → RadioStateData → NrState
get_nr receiver s = if is_even receiver then s.nr_main else s.nr_sub

unfoldable pub put_nr : ℤ → NrState → RadioStateData → RadioStateData
put_nr receiver v s = if is_even receiver then record s { nr_main = v } else record s { nr_sub = v }
