-- ===== src/Tstat/Logic.antt =====
-- tstat_logic.c: the relays that the mode, the setpoints and the temperature ask for.
pub mod Control
mod Tests
use toy_tstat.Common.{Bool, true, false, if◌then◌else◌}
use toy_tstat.Common.Ints.{ℤ, eq_ℤ, ltb_ℤ}
use toy_tstat.Tstat.Model.{
  Model, system_mode_off, system_mode_cool, system_mode_heat, get_ambient, get_cool_setpoint,
  get_heat_setpoint, get_system_mode, set_relay_y, set_relay_w,
}

-- The `switch` has no default: another mode changes nothing.
pub update_model : Model → Model
update_model m =
    let mode = get_system_mode m in
    if eq_ℤ mode system_mode_off
    then set_relay_w (set_relay_y m false) false
    else if eq_ℤ mode system_mode_cool
    then (let m1 = set_relay_y m (ltb_ℤ (get_cool_setpoint m) (get_ambient m)) in
        set_relay_w m1 false)
    else if eq_ℤ mode system_mode_heat
    then (let m1 = set_relay_y m false in
        set_relay_w m1 (ltb_ℤ (get_ambient m1) (get_heat_setpoint m1)))
    else m
