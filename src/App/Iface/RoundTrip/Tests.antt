-- ===== src/App/Iface/RoundTrip/Tests.antt =====
-- A model in the mode COOL, and what jsmn answers for its JSON.
use toy_tstat.Common.{ℕ, ◌≡◌, refl, inl, inr, true, false, List, [], ◌∷◌, drop, replicate, arith}
use toy_tstat.Common.Ints.{ℤ, pos}
use toy_tstat.Common.Chars.{Bytes, digits, show_nat, show_int}
use toy_tstat.Jems.{Jems, unset}
use toy_tstat.Jems.Feed.{quote, escape, escape_byte}
use toy_tstat.Tstat.Model.{Model, system_mode_cool}
use toy_tstat.Tstat.Load.{Token, object, string, primitive, load_json}
use toy_tstat.Tstat.Load.Fields.{IsTokenised}
use toy_tstat.Tstat.Dump.{WriterState, dump_json, system_mode_to_string}
use toy_tstat.Tstat.Dump.Text.{IsStored, dump_text, member, show_bool}
use toy_tstat.App.Example.{integers, integers-IntsExact, cold, cold-IsStored}
use toy_tstat.App.Iface.{cstr}
use toy_tstat.App.Iface.RoundTrip.{load-dump}

abbrev idle : Jems WriterState
idle = record {
  levels = [];
  max_level = 0;
  curr_level = 0;
  arg = record { buf = []; buflen = 0; written = 0 };
}

abbrev cool_model : Model
cool_model = record cold { relay_w = false; system_mode = system_mode_cool }

abbrev field : ℕ → ℕ → Token
field start end = record { type = string; start = start; end = end }

abbrev value : ℕ → ℕ → Token
value start end = record { type = primitive; start = start; end = end }

-- The tokens of its JSON.
abbrev tokens : List Token
tokens =
    record { type = object; start = 0; end = 116 }
    ∷ field 2 9
    ∷ value 11 13
    ∷ field 15 28
    ∷ value 30 32
    ∷ field 34 47
    ∷ value 49 51
    ∷ field 53 60
    ∷ value 62 66
    ∷ field 68 75
    ∷ value 77 82
    ∷ field 84 95
    ∷ field 98 114
    ∷ []

abbrev parser : Bytes → ℕ → ℤ × List Token
parser text size = (pos 13, tokens)

cool_model-IsStored : IsStored cool_model
cool_model-IsStored = record {
  ambient_int = cold-IsStored.ambient_int;
  cool_int = cold-IsStored.cool_int;
  heat_int = cold-IsStored.heat_int;
}

tokens-IsTokenised : IsTokenised (dump_text cool_model) tokens cool_model
unfolding dump_text member show_bool quote escape escape_byte digits show_nat show_int
    system_mode_to_string
tokens-IsTokenised = record {
  top = record { type = object; start = 0; end = 116 };
  k1 = field 2 9;
  v1 = value 11 13;
  k2 = field 15 28;
  v2 = value 30 32;
  k3 = field 34 47;
  v3 = value 49 51;
  k4 = field 53 60;
  v4 = value 62 66;
  k5 = field 68 75;
  v5 = value 77 82;
  k6 = field 84 95;
  v6 = field 98 114;
  all = refl;
  top_kind = refl;
  name1 = record {
    kind = refl;
    inside = record { ordered = omega arith; in_text = omega arith };
    reads = refl;
  };
  value1 = record {
    kind = refl;
    behind = drop 13 (dump_text cool_model);
    reads = refl;
    stops = refl;
  };
  name2 = record {
    kind = refl;
    inside = record { ordered = omega arith; in_text = omega arith };
    reads = refl;
  };
  value2 = record {
    kind = refl;
    behind = drop 32 (dump_text cool_model);
    reads = refl;
    stops = refl;
  };
  name3 = record {
    kind = refl;
    inside = record { ordered = omega arith; in_text = omega arith };
    reads = refl;
  };
  value3 = record {
    kind = refl;
    behind = drop 51 (dump_text cool_model);
    reads = refl;
    stops = refl;
  };
  name4 = record {
    kind = refl;
    inside = record { ordered = omega arith; in_text = omega arith };
    reads = refl;
  };
  value4 = record {
    kind = refl;
    inside = record { ordered = omega arith; in_text = omega arith };
    reads = refl;
  };
  name5 = record {
    kind = refl;
    inside = record { ordered = omega arith; in_text = omega arith };
    reads = refl;
  };
  value5 = record {
    kind = refl;
    inside = record { ordered = omega arith; in_text = omega arith };
    reads = refl;
  };
  name6 = record {
    kind = refl;
    inside = record { ordered = omega arith; in_text = omega arith };
    reads = refl;
  };
  inside6 = record { ordered = omega arith; in_text = omega arith };
  value6 = refl;
}

load-dump_example :
    load_json parser cold
      (cstr (dump_json integers (unset ∷ unset ∷ unset ∷ []) idle cool_model (replicate 200 1) 200))
    ≡ (true, cool_model)
unfolding dump_text member show_bool quote escape escape_byte digits show_nat show_int
    system_mode_to_string
load-dump_example =
    load-dump integers unset unset unset idle parser cool_model cold (replicate 200 1) 200
      integers-IntsExact cool_model-IsStored (inr (inl refl)) refl (omega arith) (omega arith)
      (omega arith) refl tokens-IsTokenised
