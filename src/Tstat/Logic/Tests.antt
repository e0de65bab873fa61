-- ===== src/Tstat/Logic/Tests.antt =====
-- A room that is too warm, with the thermostat set to cool it.
use toy_tstat.Common.{◌≡◌, ◌↔◌, refl, inl, inr, true, false}
use toy_tstat.Common.Ints.{pos, ◌<ℤ◌}
use toy_tstat.Tstat.Model.{Model, system_mode_cool, system_mode_heat}
use toy_tstat.Tstat.Logic.{update_model}
use toy_tstat.Tstat.Logic.Control.{update_model_relays}

abbrev warm : Model
warm = record {
  ambient = pos 85;
  cool_setpoint = pos 78;
  heat_setpoint = pos 65;
  relay_y = false;
  relay_w = true;
  system_mode = system_mode_cool;
}

relays_example :
    (((update_model warm).relay_y ≡ true) ↔ ((pos 1 ≡ system_mode_cool) × (pos 78 <ℤ pos 85)))
    × (((update_model warm).relay_w ≡ true) ↔ ((pos 1 ≡ system_mode_heat) × (pos 85 <ℤ pos 65)))
relays_example = update_model_relays warm (inr (inl refl))
