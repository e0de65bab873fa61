-- ===== src/Tstat/Dump/Tests.antt =====
-- A dump into a buffer that is too small for it.
use toy_tstat.Common.{
  ◌≡◌, refl, true, false, [], ◌∷◌, length, take, drop, get_or, min, arith, replicate,
}
use toy_tstat.Common.Ints.{ℤ, pos, negsuc, eq_ℤ}
use toy_tstat.Common.Chars.{Bytes, show_int}
use toy_tstat.Jems.{Jems, Doubles, unset}
use toy_tstat.Tstat.Model.{Model, system_mode_cool}
use toy_tstat.Tstat.Dump.{WriterState, dump_json}
use toy_tstat.Tstat.Dump.Text.{IntsExact, IsStored, dump_text}
use toy_tstat.Tstat.Dump.Buffer.{dump_json_fits}

-- Doubles that are integers.
abbrev integers : Doubles
integers = record {
  Double = ℤ;
  of_int = λ z. z;
  to_int64 = λ z. z;
  equal = eq_ℤ;
  show_lf = show_int;
}

eq_ℤ_self : (z : ℤ) → eq_ℤ z z ≡ true
eq_ℤ_self (pos n) = ground arith
eq_ℤ_self (negsuc n) = ground arith

integers-IntsExact : IntsExact integers
integers-IntsExact = record { back = λ z i. refl; same = λ z i. eq_ℤ_self z }

abbrev warm : Model
warm = record {
  ambient = pos 85;
  cool_setpoint = pos 78;
  heat_setpoint = pos 65;
  relay_y = true;
  relay_w = false;
  system_mode = system_mode_cool;
}

warm-IsStored : IsStored warm
warm-IsStored = record {
  ambient_int = record { below = omega arith; above = omega arith };
  cool_int = record { below = omega arith; above = omega arith };
  heat_int = record { below = omega arith; above = omega arith };
}

abbrev idle : Jems WriterState
idle = record {
  levels = [];
  max_level = 0;
  curr_level = 0;
  arg = record { buf = []; buflen = 0; written = 0 };
}

abbrev buffer : Bytes
buffer = replicate 20 1

dump_example :
    let out = dump_json integers (unset ∷ unset ∷ unset ∷ []) idle warm buffer 16 in
    let len = min 15 (length (dump_text warm)) in
    (take len out ≡ take 15 (dump_text warm))
    × (get_or out len 1 ≡ 0)
    × (length out ≡ length buffer)
    × (drop 16 out ≡ drop 16 buffer)
dump_example =
    dump_json_fits integers unset unset unset idle warm buffer 16 integers-IntsExact warm-IsStored
      (omega arith) (omega arith) (omega arith)
