-- ===== src/Tstat/Load/Tests.antt =====
-- The text of a small object and the tokens that jsmn makes of it.
use toy_tstat.Common.{ℕ, ◌≡◌, ◌↔◌, refl, inl, inr, true, false, some, List, [], ◌∷◌, ◌++◌, arith}
use toy_tstat.Common.Ints.{ℤ, pos, negsuc}
use toy_tstat.Common.Chars.{Bytes, codes, show_int, show_nat, digits}
use toy_tstat.Tstat.Model.{Model, system_mode_off, system_mode_cool}
use toy_tstat.Tstat.Logic.Control.{IsMode}
use toy_tstat.Tstat.Load.{
  Token, object, string, primitive, token_streq, update_enum, sys_names, load_json,
}
use toy_tstat.Tstat.Dump.{system_mode_to_string}
use toy_tstat.Tstat.Load.Match.{text, token_streq_iff}
use toy_tstat.Tstat.Load.Safe.{load_json-IsMode}
use toy_tstat.Tstat.Load.Values.{update_enum-mode_name}

abbrev json : Bytes
json = codes "{\"ambient\":-12,\"system_mode\":\"SYSTEM_MODE_COOL\"}"

-- What follows the number.
abbrev following : Bytes
following = codes ",\"system_mode\":\"SYSTEM_MODE_COOL\"}"

abbrev key : Token
key = record { type = string; start = 2; end = 9 }

abbrev number : Token
number = record { type = primitive; start = 11; end = 14 }

abbrev mode : Token
mode = record { type = string; start = 30; end = 46 }

-- A parser that answers the tokens of this text.
abbrev parser : Bytes → ℕ → ℤ × List Token
parser text size = (
  pos 5,
  record { type = object; start = 0; end = 48 }
      ∷ key
      ∷ number
      ∷ record { type = string; start = 16; end = 27 }
      ∷ mode
      ∷ [],
)

abbrev before : Model
before = record {
  ambient = pos 85;
  cool_setpoint = pos 78;
  heat_setpoint = pos 65;
  relay_y = false;
  relay_w = true;
  system_mode = system_mode_off;
}

token_streq_example :
    (token_streq json key (codes "ambient") ≡ true)
    ↔ ((rest : Bytes) × (codes "ambient" ≡ text json key ++ rest))
token_streq_example =
    token_streq_iff json key (codes "ambient") refl
      (record { ordered = omega arith; in_text = omega arith })

load_example : IsMode (load_json parser before json).1.system_mode
load_example = load_json-IsMode parser before json (inl refl)

number_text : codes "-12" ≡ show_int (negsuc 11)
unfolding show_int show_nat digits
number_text = refl

mode_text : codes "SYSTEM_MODE_COOL" ≡ system_mode_to_string system_mode_cool
unfolding system_mode_to_string
mode_text = refl

mode_example : update_enum json mode sys_names ≡ some system_mode_cool
mode_example =
    update_enum-mode_name json mode system_mode_cool (inr (inl refl))
      (record { ordered = omega arith; in_text = omega arith }) mode_text
