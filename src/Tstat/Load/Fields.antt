-- ===== src/Tstat/Load/Fields.antt =====
-- The loop of tstat_model_load_json on the tokens of the text that a dump writes.
use toy_tstat.Common.{
  ℕ, ◌≡◌, refl, sym, ap, ◌∙◌, ap₂, Bool, true, false, not, Option, none, some, List, [], ◌∷◌, ◌++◌,
  if◌then◌else◌, length, take, take-all, drop, get_or, arith,
}
use toy_tstat.Common.Ints.{ℤ, pos, ltb_ℤ, eq_ℤ, pos_part}
use toy_tstat.Common.Chars.{Bytes, codes, show_int, strncmp_eq}
use toy_tstat.Common.Decimal.{NoDigit}
use toy_tstat.Tstat.Model.{Model, system_mode_heat}
use toy_tstat.Tstat.Logic.Control.{IsMode}
use toy_tstat.Tstat.Load.{
  Token, object, string, primitive, is_string, is_object, is_odd, unset, max_tokens, token_streq,
  update_int, update_bool, update_enum, sys_names, store, update_field, load_pairs, load_json,
  k_ambient, k_cool_setpoint, k_heat_setpoint, k_relay_y, k_relay_w, k_system_mode,
}
use toy_tstat.Tstat.Load.Match.{text, Inside}
use toy_tstat.Tstat.Load.Values.{compares, update_int-show_int, update_enum-mode_name}
use toy_tstat.Tstat.Dump.{system_mode_to_string}
use toy_tstat.Tstat.Dump.Text.{show_bool}

-- A token for the name of a field.
pub record IsName (json : Bytes) (key : Token) (name : Bytes) : Type 0 where
  pub kind : key.type ≡ string
  pub inside : Inside json key
  pub reads : text json key ≡ name

-- A token for an integer, which the text goes on behind with no digit.
pub record IsInteger (json : Bytes) (t : Token) (z : ℤ) : Type 0 where
  pub kind : t.type ≡ primitive
  pub behind : Bytes
  pub reads : drop t.start json ≡ show_int z ++ behind
  pub stops : NoDigit behind

pub record IsTruth (json : Bytes) (t : Token) (b : Bool) : Type 0 where
  pub kind : t.type ≡ primitive
  pub inside : Inside json t
  pub reads : text json t ≡ show_bool b

token_streq-name :
    {json : Bytes} {key : Token} {name : Bytes}
    → IsName json key name
    → (str : Bytes) → token_streq json key str ≡ strncmp_eq name str (length name)
unfolding token_streq
token_streq-name k str = rw k.kind (compares k.inside k.reads str)

update_bool-truth :
    {json : Bytes} {t : Token} (b : Bool) → IsTruth json t b → update_bool json t ≡ some b
unfolding update_bool strncmp_eq show_bool
update_bool-truth true r = rw (r.kind, compares r.inside r.reads (codes "true")) refl
update_bool-truth false r =
    rw (r.kind, compares r.inside r.reads (codes "true"), compares r.inside r.reads (codes "false"))
      refl

-- The ladder, by the name that the key has.
by_name : Bytes → Bytes → Token → Model → Option Model
by_name name json value m =
    if strncmp_eq name k_ambient (length name)
    then store (update_int json value) (λ v. record m { ambient = v })
    else if strncmp_eq name k_cool_setpoint (length name)
    then store (update_int json value) (λ v. record m { cool_setpoint = v })
    else if strncmp_eq name k_heat_setpoint (length name)
    then store (update_int json value) (λ v. record m { heat_setpoint = v })
    else if strncmp_eq name k_relay_y (length name)
    then store (update_bool json value) (λ v. record m { relay_y = v })
    else if strncmp_eq name k_relay_w (length name)
    then store (update_bool json value) (λ v. record m { relay_w = v })
    else if strncmp_eq name k_system_mode (length name)
    then store (update_enum json value sys_names) (λ v. record m { system_mode = v })
    else some m

-- One round of the loop.
module _ {json : Bytes} {key : Token} {name : Bytes} (k : IsName json key name)
    (value : Token) where
  update_field-name : (m : Model) → update_field json key value m ≡ by_name name json value m
  unfolding update_field by_name
  update_field-name m =
      rw
        (
          token_streq-name k k_ambient,
          token_streq-name k k_cool_setpoint,
          token_streq-name k k_heat_setpoint,
          token_streq-name k k_relay_y,
          token_streq-name k k_relay_w,
          token_streq-name k k_system_mode,
        )
        refl

  load_pairs-round :
      (rest : List Token) (m m' : Model)
      → by_name name json value m ≡ some m'
      → load_pairs json (key ∷ value ∷ rest) m ≡ load_pairs json rest m'
  unfolding load_pairs
  load_pairs-round rest m m' e =
      ap₂
        (λ (b : Bool) (f : Option Model). elim b as (λ x. Bool × Model) [
          | false ↦ (false, m)
          | true ↦ elim f as (λ x. Bool × Model) [
            | none ↦ (false, m)
            | some n ↦ load_pairs json rest n
          ]
        ])
        (ap is_string k.kind) (update_field-name m ∙ e)

-- The tokens that stand for a model in a text, as jsmn documents them: the object, and for each field
-- the token of its name and that of its value, each with the bounds of its text.
pub record IsTokenised (json : Bytes) (tokens : List Token) (m : Model) : Type 0 where
  pub top : Token
  pub k1 : Token
  pub v1 : Token
  pub k2 : Token
  pub v2 : Token
  pub k3 : Token
  pub v3 : Token
  pub k4 : Token
  pub v4 : Token
  pub k5 : Token
  pub v5 : Token
  pub k6 : Token
  pub v6 : Token
  pub all : tokens ≡ top ∷ k1 ∷ v1 ∷ k2 ∷ v2 ∷ k3 ∷ v3 ∷ k4 ∷ v4 ∷ k5 ∷ v5 ∷ k6 ∷ v6 ∷ []
  pub top_kind : top.type ≡ object
  pub name1 : IsName json k1 k_ambient
  pub value1 : IsInteger json v1 m.ambient
  pub name2 : IsName json k2 k_cool_setpoint
  pub value2 : IsInteger json v2 m.cool_setpoint
  pub name3 : IsName json k3 k_heat_setpoint
  pub value3 : IsInteger json v3 m.heat_setpoint
  pub name4 : IsName json k4 k_relay_y
  pub value4 : IsTruth json v4 m.relay_y
  pub name5 : IsName json k5 k_relay_w
  pub value5 : IsTruth json v5 m.relay_w
  pub name6 : IsName json k6 k_system_mode
  pub inside6 : Inside json v6
  pub value6 : text json v6 ≡ system_mode_to_string m.system_mode

module _ {json : Bytes} {tokens : List Token} {m : Model} (t : IsTokenised json tokens m) where
  -- The loop over the pairs.
  load_pairs-all :
      (m0 : Model)
      → IsMode m.system_mode
      → eq_ℤ m.system_mode system_mode_heat ≡ false
      → load_pairs json (drop 1 tokens) m0 ≡ (true, m)
  unfolding by_name strncmp_eq load_pairs store
  load_pairs-all m0 mode not_heat =
      let r5 = t.k6 ∷ t.v6 ∷ [] in
      let r4 = t.k5 ∷ t.v5 ∷ r5 in
      let r3 = t.k4 ∷ t.v4 ∷ r4 in
      let r2 = t.k3 ∷ t.v3 ∷ r3 in
      let r1 = t.k2 ∷ t.v2 ∷ r2 in
      let m1 : Model = record m0 { ambient = m.ambient } in
      let m2 : Model = record m1 { cool_setpoint = m.cool_setpoint } in
      let m3 : Model = record m2 { heat_setpoint = m.heat_setpoint } in
      let m4 : Model = record m3 { relay_y = m.relay_y } in
      let m5 : Model = record m4 { relay_w = m.relay_w } in
      ap (λ ts. load_pairs json (drop 1 ts) m0) t.all
      ∙ load_pairs-round t.name1 t.v1 r1 m0 m1
          (ap (λ v. store v (λ z. record m0 { ambient = z })) (integer t.value1))
      ∙ load_pairs-round t.name2 t.v2 r2 m1 m2
          (ap (λ v. store v (λ z. record m1 { cool_setpoint = z })) (integer t.value2))
      ∙ load_pairs-round t.name3 t.v3 r3 m2 m3
          (ap (λ v. store v (λ z. record m2 { heat_setpoint = z })) (integer t.value3))
      ∙ load_pairs-round t.name4 t.v4 r4 m3 m4 (
          ap (λ v. store v (λ b. record m3 { relay_y = b })) (update_bool-truth m.relay_y t.value4))
      ∙ load_pairs-round t.name5 t.v5 r5 m4 m5 (
          ap (λ v. store v (λ b. record m4 { relay_w = b })) (update_bool-truth m.relay_w t.value5))
      ∙ load_pairs-round t.name6 t.v6 [] m5 m (
          ap (λ v. store v (λ z. record m5 { system_mode = z }))
            (update_enum-mode_name json t.v6 m.system_mode mode t.inside6 t.value6
              ∙ ap (λ b. if b then none else some m.system_mode) not_heat))
    where
      integer : {v : Token} {z : ℤ} → IsInteger json v z → update_int json v ≡ some z
      integer {v} {z} i = update_int-show_int json v z i.behind i.kind i.reads i.stops

-- What the load makes of the parser's answer.
loaded : Bytes → Model → ℤ → List Token → Bool × Model
loaded json m result tokens =
    if ltb_ℤ result (pos 1)
    then (false, m)
    else if not (is_object (get_or tokens 0 unset).type)
    then (false, m)
    else if not (is_odd (pos_part result))
    then (false, m)
    else load_pairs json (drop 1 (take (pos_part result) tokens)) m

-- Thirteen tokens behind an object.
loaded-all :
    (json : Bytes) (m0 : Model) (top : Token) (rest : List Token)
    → top.type ≡ object
    → length rest ≡ 12
    → loaded json m0 (pos 13) (top ∷ rest) ≡ load_pairs json rest m0
unfolding loaded is_odd
loaded-all json m0 top rest kind size =
    ap (λ k. if not (is_object k) then (false, m0) else load_pairs json (take 12 rest) m0) kind
    ∙ ap (λ ts. load_pairs json ts m0) (take-all 12 rest (omega arith))

-- Whatever the model was before: from a text whose tokens stand for a model, with a mode OFF or COOL, that
-- model is loaded.
pub load_json-all :
    (jsmn_parse : Bytes → ℕ → ℤ × List Token) (json : Bytes) (m m0 : Model)
    → IsTokenised json (jsmn_parse json max_tokens).1 m
    → (jsmn_parse json max_tokens).0 ≡ pos 13
    → IsMode m.system_mode
    → eq_ℤ m.system_mode system_mode_heat ≡ false
    → load_json jsmn_parse m0 json ≡ (true, m)
unfolding load_json loaded
load_json-all jsmn_parse json m m0 t count mode not_heat =
    let rest =
      t.k1 ∷ t.v1 ∷ t.k2 ∷ t.v2 ∷ t.k3 ∷ t.v3 ∷ t.k4 ∷ t.v4 ∷ t.k5 ∷ t.v5 ∷ t.k6 ∷ t.v6 ∷ [] in
    ap₂ (loaded json m0) count t.all
    ∙ loaded-all json m0 t.top rest t.top_kind refl
    ∙ ap (λ ts. load_pairs json (drop 1 ts) m0) (sym t.all)
    ∙ load_pairs-all t m0 mode not_heat
