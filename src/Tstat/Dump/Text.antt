-- ===== src/Tstat/Dump/Text.antt =====
-- The text that the dump hands to its writer.
use toy_tstat.Common.{
  ℕ, ◌≡◌, ◌≤◌, ◌^◌, refl, sym, ap, ◌∙◌, Bool, true, [], ◌∷◌, ◌++◌, if◌then◌else◌, append_assoc,
  append-nil, arith,
}
use toy_tstat.Common.Ints.{ℤ, pos, negsuc, abs, IsInt32}
use toy_tstat.Common.Chars.{Bytes, codes, show_int}
use toy_tstat.Jems as Ser
use toy_tstat.Jems.{Jems, Level, Doubles}
use toy_tstat.Jems.Feed.{feed, quote, number-item, integer-item}
use toy_tstat.Jems.Tree.{
  Value, int, boolean, str, obj, end, field, show, write, depth, size, HasInt64s,
}
use toy_tstat.Jems.Tree.Shown.{write-show}
use toy_tstat.Tstat.Model.{Model}
use toy_tstat.Tstat.Load.{
  k_ambient, k_cool_setpoint, k_heat_setpoint, k_relay_y, k_relay_w, k_system_mode,
}
use toy_tstat.Tstat.Dump.{dump_fields, system_mode_to_string}

-- An `int` goes through `double` unchanged.
pub record IntsExact (d : Doubles) : Type 0 where
  pub back : (z : ℤ) → IsInt32 z → d.to_int64 (d.of_int z) ≡ z
  pub same : (z : ℤ) → IsInt32 z → d.equal (d.of_int z) (d.of_int z) ≡ true

-- A model whose fields are values of `int`.
pub record IsStored (m : Model) : Type 0 where
  pub ambient_int : IsInt32 m.ambient
  pub cool_int : IsInt32 m.cool_setpoint
  pub heat_int : IsInt32 m.heat_setpoint

-- The name of a field with its value.
unfoldable pub member : Bytes → Bytes → Bytes
member key value = quote key ++ b':' ∷ value

unfoldable pub show_bool : Bool → Bytes
show_bool b = if b then codes "true" else codes "false"

-- The JSON object of a model, its fields in the order of the source.
unfoldable pub dump_text : Model → Bytes
dump_text m =
    (b'{' ∷ [])
    ++ (member k_ambient (show_int m.ambient)
        ++ ((b',' ∷ member k_cool_setpoint (show_int m.cool_setpoint))
            ++ ((b',' ∷ member k_heat_setpoint (show_int m.heat_setpoint))
                ++ ((b',' ∷ member k_relay_y (show_bool m.relay_y))
                    ++ ((b',' ∷ member k_relay_w (show_bool m.relay_w))
                        ++ ((b','
                              ∷ member k_system_mode (quote (system_mode_to_string m.system_mode)))
                            ++ b'}' ∷ []))))))

-- The model as a value.
abbrev pub model_value : Model → Value
model_value m = obj (
    field k_ambient (int m.ambient) (
      field k_cool_setpoint (int m.cool_setpoint) (
        field k_heat_setpoint (int m.heat_setpoint) (
          field k_relay_y (boolean m.relay_y) (
            field k_relay_w (boolean m.relay_w)
              (field k_system_mode (str (system_mode_to_string m.system_mode)) end))))))

show-model_value : (m : Model) → show (model_value m) ≡ dump_text m
unfolding show dump_text member show_bool
show-model_value m = simp (append_assoc, append-nil)

int64_of_int32 : (z : ℤ) → IsInt32 z → abs z ≤ 2 ^ 63
int64_of_int32 (pos n) i = omega (arith, i.below)
int64_of_int32 (negsuc n) i = omega (arith, i.above)

module _ {ℓ} {S : Type ℓ} (writer : ℕ → S → S) (d : Doubles) (exact : IntsExact d) where
  -- A double that holds an int is written as the int.
  number-integer :
      (j : Jems S) (z : ℤ) → IsInt32 z → Ser.number writer d j (d.of_int z) ≡ Ser.integer writer j z
  number-integer j z i =
      number-item writer d j z (exact.back z i) (exact.same z i) ∙ sym (integer-item writer j z)

  dump_fields-write :
      (j : Jems S) (m : Model)
      → IsStored m
      → dump_fields d writer j m ≡ write writer j (model_value m)
  unfolding dump_fields write Ser.key_number Ser.key_bool Ser.key_string
  dump_fields-write j m v =
      rw
        (
          number-integer _ m.ambient v.ambient_int,
          number-integer _ m.cool_setpoint v.cool_int,
          number-integer _ m.heat_setpoint v.heat_int,
        )
        refl

  -- The calls of the dump hand the writer exactly the JSON object of the model.
  pub dump_fields_arg :
      (l0 l1 l2 : Level) (j : Jems S) (m : Model) (a : S)
      → IsStored m
      → (dump_fields d writer (Ser.init j (l0 ∷ l1 ∷ l2 ∷ []) 3 a) m).arg
        ≡ feed writer (dump_text m) a
  unfolding depth size HasInt64s
  dump_fields_arg l0 l1 l2 j m a v =
      let start = Ser.init j (l0 ∷ l1 ∷ l2 ∷ []) 3 a in
      let ints : HasInt64s (model_value m) = (
        int64_of_int32 m.ambient v.ambient_int,
        (
          int64_of_int32 m.cool_setpoint v.cool_int,
          (int64_of_int32 m.heat_setpoint v.heat_int, (tt, (tt, (tt, tt)))),
        ),
      ) in
      let (whole, level, items) =
        write-show writer (model_value m) j (l0 ∷ l1 ∷ l2 ∷ []) 3 a (omega arith) (omega arith)
          (omega arith) (omega arith) ints in
      ap (λ k. k.arg) (dump_fields-write start m v)
      ∙ whole
      ∙ ap (λ t. feed writer t a) (show-model_value m)
