-- ===== src/Tstat/Load.antt =====
-- tstat_model_load_json of tstat_model.c, over the tokens that jsmn makes of the text. The parser is
-- jsmn's, a library: it is a parameter.
pub mod Match
pub mod Safe
pub mod Values
pub mod Fields
mod Tests
use Prim.Native.Nat.{bit_and}
use toy_tstat.Common.{
  ℕ, zero, suc, ◌-◌, Bool, true, false, not, Option, none, some, List, [], ◌∷◌, ◌==◌, if◌then◌else◌,
  get_or, take, drop,
}
use toy_tstat.Common.Ints.{ℤ, pos, ltb_ℤ, pos_part}
use toy_tstat.Common.Chars.{Bytes, codes, atoi, strncmp_eq}
use toy_tstat.Tstat.Model.{Model, system_mode_off, system_mode_cool, system_mode_heat}

-- `jsmntype_t`
pub data TokenType : Type 0 where
  undefined object array string primitive : TokenType

-- `jsmntok_t`, as far as it is read: where the token's text stands in the JSON text.
pub record Token : Type 0 where
  pub type : TokenType
  pub start : ℕ
  pub end : ℕ

abbrev pub is_object : TokenType → Bool
is_object object = true
is_object undefined = false
is_object array = false
is_object string = false
is_object primitive = false

abbrev pub is_string : TokenType → Bool
is_string string = true
is_string undefined = false
is_string object = false
is_string array = false
is_string primitive = false

abbrev pub is_primitive : TokenType → Bool
is_primitive primitive = true
is_primitive undefined = false
is_primitive object = false
is_primitive array = false
is_primitive string = false

-- MAX_JSMN_TOKENS
abbrev pub max_tokens : ℕ
max_tokens = 13

-- What is read of the parser's array where it wrote nothing: `load_json` reads only what it counted.
abbrev pub unset : Token
unset = record { type = undefined; start = 0; end = 0 }

pub is_odd : ℕ → Bool
is_odd n = bit_and n 1 == 1

pub token_streq : Bytes → Token → Bytes → Bool
token_streq json t str =
    if not (is_string t.type) then false else strncmp_eq (drop t.start json) str (t.end - t.start)

-- The updates answer the value for `*dst`, or nothing where the code returns false.
pub update_int : Bytes → Token → Option ℤ
update_int json t = if not (is_primitive t.type) then none else some (atoi (drop t.start json))

pub update_bool : Bytes → Token → Option Bool
update_bool json t =
    if not (is_primitive t.type)
    then none
    else if strncmp_eq (drop t.start json) (codes "true") (t.end - t.start)
    then some true
    else if strncmp_eq (drop t.start json) (codes "false") (t.end - t.start)
    then some false
    else none

-- The names with their values, in the order of the arrays.
pub update_enum : Bytes → Token → List (Bytes × ℤ) → Option ℤ
update_enum json t [] = none
update_enum json t ((name, value) ∷ names) =
    if strncmp_eq (drop t.start json) name (t.end - t.start)
    then some value
    else update_enum json t names

-- `sys_names` and `sys_values`
abbrev pub sys_names : List (Bytes × ℤ)
sys_names =
    (codes "SYSTEM_MODE_OFF", system_mode_off)
    ∷ (codes "SYSTEM_MODE_COOL", system_mode_cool)
    ∷ (codes "SYSTEM_MODE_HEAT", system_mode_heat)
    ∷ []

-- The names of the fields.
abbrev pub k_ambient : Bytes
k_ambient = codes "ambient"

abbrev pub k_cool_setpoint : Bytes
k_cool_setpoint = codes "cool_setpoint"

abbrev pub k_heat_setpoint : Bytes
k_heat_setpoint = codes "heat_setpoint"

abbrev pub k_relay_y : Bytes
k_relay_y = codes "relay_y"

abbrev pub k_relay_w : Bytes
k_relay_w = codes "relay_w"

abbrev pub k_system_mode : Bytes
k_system_mode = codes "system_mode"

-- A stored value, or a failure that leaves the model.
pub store {ℓ} : {A : Type ℓ} → Option A → (A → Model) → Option Model
store none f = none
store (some a) f = some (f a)

-- The ladder of one round of the loop; `none` is `return NULL`.
pub update_field : Bytes → Token → Token → Model → Option Model
update_field json key value m =
    if token_streq json key k_ambient
    then store (update_int json value) (λ v. record m { ambient = v })
    else if token_streq json key k_cool_setpoint
    then store (update_int json value) (λ v. record m { cool_setpoint = v })
    else if token_streq json key k_heat_setpoint
    then store (update_int json value) (λ v. record m { heat_setpoint = v })
    else if token_streq json key k_relay_y
    then store (update_bool json value) (λ v. record m { relay_y = v })
    else if token_streq json key k_relay_w
    then store (update_bool json value) (λ v. record m { relay_w = v })
    else if token_streq json key k_system_mode
    then store (update_enum json value sys_names) (λ v. record m { system_mode = v })
    else some m

-- The loop over the tokens behind the object, two at a time. The answer is whether the code returns
-- the model (and not NULL); the model keeps what was written before a failure.
pub load_pairs : Bytes → List Token → Model → Bool × Model
load_pairs json [] m = (true, m)
load_pairs json (key ∷ []) m = (true, m)
load_pairs json (key ∷ value ∷ rest) m = elim (is_string key.type) [
  | false ↦ (false, m)
  | true ↦ elim (update_field json key value m) [
    | none ↦ (false, m)
    | some m' ↦ load_pairs json rest m'
  ]
]

-- `jsmn_parse` with `jsmn_init`, on the text and the size of the token array: the result, which is
-- the count of tokens if it is positive, and the array.
module _ (jsmn_parse : Bytes → ℕ → ℤ × List Token) where
  pub load_json : Model → Bytes → Bool × Model
  unfolding is_odd
  load_json m json =
      let (result, tokens) = jsmn_parse json max_tokens in
      if ltb_ℤ result (pos 1)
      then (false, m)
      else if not (is_object (get_or tokens 0 unset).type)
      then (false, m)
      else if not (is_odd (pos_part result))
      then (false, m)
      else load_pairs json (drop 1 (take (pos_part result) tokens)) m
