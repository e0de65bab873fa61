-- ===== src/Tstat/Load/Safe.antt =====
-- What every load keeps, whatever the parser answers.
use toy_tstat.Common.{
  ℕ, ◌≡◌, refl, inl, inr, Bool, true, false, Option, none, some, List, [], ◌∷◌, arith, Bool-cases,
  Option-cases, take, drop, if◌then◌else◌,
}
use mathlib.Core.Path.{subst}
use toy_tstat.Common.Ints.{ℤ, pos_part}
use toy_tstat.Common.Chars.{Bytes}
use toy_tstat.Tstat.Model.{Model}
use toy_tstat.Tstat.Logic.Control.{IsMode}
use toy_tstat.Tstat.Load.{
  Token, is_string, update_enum, sys_names, update_field, load_pairs, load_json, store, max_tokens,
  token_streq, update_int, update_bool, k_ambient, k_cool_setpoint, k_heat_setpoint, k_relay_y,
  k_relay_w, k_system_mode,
}

update_enum-IsMode :
    (json : Bytes) (t : Token) {v : ℤ} → update_enum json t sys_names ≡ some v → IsMode v
unfolding update_enum
update_enum-IsMode json t h = ground arith

-- Where an update succeeds, the mode of the new model is one of the three.
HasMode : Option Model → Type 0
HasMode none = Unit
HasMode (some m) = IsMode m.system_mode

if-HasMode : (b : Bool) (x y : Option Model) → HasMode x → HasMode y → HasMode (if b then x else y)
unfolding HasMode
if-HasMode true x y p q = p
if-HasMode false x y p q = q

some-HasMode : (m : Model) → IsMode m.system_mode → HasMode (some m)
unfolding HasMode
some-HasMode m h = h

store-HasMode {ℓ} :
    {A : Type ℓ} (o : Option A) (f : A → Model)
    → ((v : A) → o ≡ some v → IsMode (f v).system_mode)
    → HasMode (store o f)
unfolding HasMode store
store-HasMode none f h = tt
store-HasMode (some a) f h = h a refl

HasMode-IsMode : (m : Model) → HasMode (some m) → IsMode m.system_mode
unfolding HasMode
HasMode-IsMode m h = h

update_field-HasMode :
    (json : Bytes) (key value : Token) (m : Model)
    → IsMode m.system_mode
    → HasMode (update_field json key value m)
unfolding update_field
update_field-HasMode json key value m mode =
    if-HasMode (token_streq json key k_ambient)
      (store (update_int json value) (λ v. record m { ambient = v })) _
      (store-HasMode (update_int json value) (λ v. record m { ambient = v }) (λ v e. mode))
      (if-HasMode (token_streq json key k_cool_setpoint)
        (store (update_int json value) (λ v. record m { cool_setpoint = v })) _
        (store-HasMode (update_int json value) (λ v. record m { cool_setpoint = v }) (λ v e. mode))
        (if-HasMode (token_streq json key k_heat_setpoint)
          (store (update_int json value) (λ v. record m { heat_setpoint = v })) _
          (store-HasMode (update_int json value) (λ v. record m { heat_setpoint = v })
            (λ v e. mode))
          (if-HasMode (token_streq json key k_relay_y)
            (store (update_bool json value) (λ v. record m { relay_y = v })) _
            (store-HasMode (update_bool json value) (λ v. record m { relay_y = v }) (λ v e. mode))
            (if-HasMode (token_streq json key k_relay_w)
              (store (update_bool json value) (λ v. record m { relay_w = v })) _
              (store-HasMode (update_bool json value) (λ v. record m { relay_w = v }) (λ v e. mode))
              (if-HasMode (token_streq json key k_system_mode)
                (store (update_enum json value sys_names) (λ v. record m { system_mode = v }))
                (some m)
                (store-HasMode (update_enum json value sys_names)
                  (λ v. record m { system_mode = v }) (λ v e. update_enum-IsMode json value e))
                (some-HasMode m mode))))))

load_pairs-IsMode :
    (json : Bytes) (tokens : List Token) (m : Model)
    → IsMode m.system_mode
    → IsMode (load_pairs json tokens m).1.system_mode
unfolding load_pairs
load_pairs-IsMode json [] m h = h
load_pairs-IsMode json (key ∷ []) m h = h
load_pairs-IsMode json (key ∷ value ∷ rest) m h = elim (Bool-cases (is_string key.type)) [
  | inl e ↦ elim (Option-cases (update_field json key value m)) [
    | inl none_of ↦ rw (e, load_pairs) (rw (none_of, load_pairs) h)
    | inr (m', some_of) ↦
        rw (e, load_pairs)
          (rw (some_of, load_pairs)
            (load_pairs-IsMode json rest m' (
              HasMode-IsMode m' (subst HasMode some_of (update_field-HasMode json key value m h)))))
  ]
  | inr e ↦ rw (e, load_pairs) h
]

-- Loading keeps the mode one of the three, on success and on failure, for any text and any answer
-- of the parser.
pub load_json-IsMode :
    (jsmn_parse : Bytes → ℕ → ℤ × List Token) (m : Model) (json : Bytes)
    → IsMode m.system_mode
    → IsMode (load_json jsmn_parse m json).1.system_mode
unfolding load_json
load_json-IsMode jsmn_parse m json h =
    let (result, tokens) = jsmn_parse json max_tokens in
    ground (arith, load_pairs-IsMode json (drop 1 (take (pos_part result) tokens)) m)
