-- ===== src/Tstat/Dump.antt =====
-- tstat_model_dump_json of tstat_model.c: the model as JSON, in a buffer of the caller.
pub mod Text
pub mod Buffer
mod Tests
use toy_tstat.Common.{ℕ, zero, ◌+◌, Bool, List, [], ◌∷◌, ltb, if◌then◌else◌, set}
use toy_tstat.Common.Ints.{ℤ, eq_ℤ, sub_size}
use toy_tstat.Common.Chars.{Bytes, codes}
use toy_tstat.Jems as Ser
use toy_tstat.Jems.{Jems, Level, Doubles}
use toy_tstat.Tstat.Model.{
  Model, system_mode_off, system_mode_cool, system_mode_heat, get_ambient, get_cool_setpoint,
  get_heat_setpoint, get_relay_y, get_relay_w, get_system_mode,
}
use toy_tstat.Tstat.Load.{
  k_ambient, k_cool_setpoint, k_heat_setpoint, k_relay_y, k_relay_w, k_system_mode,
}

-- `writer_state_t`; `buf` is the array that the field points at.
pub record WriterState : Type 0 where
  pub buf : Bytes
  pub buflen : ℕ
  pub written : ℕ

pub jems_writer : ℕ → WriterState → WriterState
jems_writer ch w =
    if ltb w.written w.buflen
    then record w { buf = set w.buf w.written ch; written = w.written + 1 }
    else w

-- The names that are written; the one for HEAT is spelled as in the source.
unfoldable pub system_mode_to_string : ℤ → Bytes
system_mode_to_string mode =
    if eq_ℤ mode system_mode_off
    then codes "SYSTEM_MODE_OFF"
    else if eq_ℤ mode system_mode_cool
    then codes "SYSTEM_MODE_COOL"
    else if eq_ℤ mode system_mode_heat
    then codes "SYSTEM_MDOE_HEAT"
    else codes "UNKNOWN"

-- MAX_JEMS_LEVELS
abbrev pub max_jems_levels : ℕ
max_jems_levels = 3

module _ (d : Doubles) where
  module _ {ℓ} {S : Type ℓ} (writer : ℕ → S → S) where
    -- The calls from `jems_object_open` to `jems_object_close`.
    pub dump_fields : Jems S → Model → Jems S
    unfolding system_mode_to_string
    dump_fields j0 m =
        let j1 = Ser.object_open writer j0 in
        let j2 = Ser.key_number writer d j1 k_ambient (d.of_int (get_ambient m)) in
        let j3 = Ser.key_number writer d j2 k_cool_setpoint (d.of_int (get_cool_setpoint m)) in
        let j4 = Ser.key_number writer d j3 k_heat_setpoint (d.of_int (get_heat_setpoint m)) in
        let j5 = Ser.key_bool writer j4 k_relay_y (get_relay_y m) in
        let j6 = Ser.key_bool writer j5 k_relay_w (get_relay_w m) in
        let j7 =
          Ser.key_string writer j6 k_system_mode (system_mode_to_string (get_system_mode m)) in
        Ser.object_close writer j7

  -- `levels` and `jems` are the function's local variables, with what they happen to hold.
  pub dump_json : List Level → Jems WriterState → Model → Bytes → ℕ → Bytes
  dump_json levels jems m buf buflen =
      let state =
        let w : WriterState = record { buf = buf; buflen = sub_size buflen 1; written = 0 } in w in
      let done = (dump_fields jems_writer (Ser.init jems levels max_jems_levels state) m).arg in
      set done.buf done.written 0
