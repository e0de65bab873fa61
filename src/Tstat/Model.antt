-- ===== src/Tstat/Model.antt =====
-- tstat_model.h and the accessors of tstat_model.c: the state of the thermostat. A temperature and
-- the `system_mode` field are `int`s.
use toy_tstat.Common.{Bool}
use toy_tstat.Common.Ints.{ℤ, pos}

-- `tstat_model_t`
pub record Model : Type 0 where
  pub ambient : ℤ
  pub cool_setpoint : ℤ
  pub heat_setpoint : ℤ
  pub relay_y : Bool
  pub relay_w : Bool
  pub system_mode : ℤ

-- The values of `system_mode_t`.
abbrev pub system_mode_off : ℤ
system_mode_off = pos 0

abbrev pub system_mode_cool : ℤ
system_mode_cool = pos 1

abbrev pub system_mode_heat : ℤ
system_mode_heat = pos 2

abbrev pub get_ambient : Model → ℤ
get_ambient m = m.ambient

abbrev pub get_cool_setpoint : Model → ℤ
get_cool_setpoint m = m.cool_setpoint

abbrev pub set_cool_setpoint : Model → ℤ → Model
set_cool_setpoint m t = record m { cool_setpoint = t }

abbrev pub get_heat_setpoint : Model → ℤ
get_heat_setpoint m = m.heat_setpoint

abbrev pub set_heat_setpoint : Model → ℤ → Model
set_heat_setpoint m t = record m { heat_setpoint = t }

abbrev pub get_relay_y : Model → Bool
get_relay_y m = m.relay_y

abbrev pub set_relay_y : Model → Bool → Model
set_relay_y m energized = record m { relay_y = energized }

abbrev pub get_relay_w : Model → Bool
get_relay_w m = m.relay_w

abbrev pub set_relay_w : Model → Bool → Model
set_relay_w m energized = record m { relay_w = energized }

abbrev pub get_system_mode : Model → ℤ
get_system_mode m = m.system_mode

abbrev pub set_system_mode : Model → ℤ → Model
set_system_mode m mode = record m { system_mode = mode }
