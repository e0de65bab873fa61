-- ===== src/Tstat/Logic/Control.antt =====
-- What the control logic does to the relays.
use toy_tstat.Common.{◌≡◌, ◌↔◌, ◌⊎◌, true, arith}
use toy_tstat.Common.Ints.{ℤ, ◌<ℤ◌}
use toy_tstat.Tstat.Model.{Model, system_mode_off, system_mode_cool, system_mode_heat}
use toy_tstat.Tstat.Logic.{update_model}

abbrev pub IsMode : ℤ → Type 0
IsMode z = (z ≡ system_mode_off) ⊎ (z ≡ system_mode_cool) ⊎ (z ≡ system_mode_heat)

-- In each of the three modes, after an update the cooling relay is energized exactly if the mode is
-- COOL and the temperature is above the cooling setpoint, and the heating relay exactly if the mode
-- is HEAT and the temperature is below the heating setpoint.
pub update_model_relays :
    (m : Model)
    → IsMode m.system_mode
    → (((update_model m).relay_y ≡ true)
        ↔ ((m.system_mode ≡ system_mode_cool) × (m.cool_setpoint <ℤ m.ambient)))
      × (((update_model m).relay_w ≡ true)
          ↔ ((m.system_mode ≡ system_mode_heat) × (m.ambient <ℤ m.heat_setpoint)))
unfolding update_model
update_model_relays m h = ground arith

-- Nothing but the relays changes, and in a mode that is none of the three not even they.
pub update_model_frame :
    (m : Model)
    → let m' = update_model m in
      (m'.ambient ≡ m.ambient)
      × (m'.cool_setpoint ≡ m.cool_setpoint)
      × (m'.heat_setpoint ≡ m.heat_setpoint)
      × (m'.system_mode ≡ m.system_mode)
      × ((IsMode m.system_mode) ⊎ (m' ≡ m))
unfolding update_model
update_model_frame m = ground arith

-- A second update with nothing new changes nothing.
pub update_model_idem : (m : Model) → update_model (update_model m) ≡ update_model m
unfolding update_model
update_model_idem m = ground arith
