-- ===== src/Jems/Tree/Tests.antt =====
-- A value with an array in an object.
use toy_tstat.Common.{ℕ, ◌≡◌, refl, true, List, [], ◌∷◌, arith}
use toy_tstat.Common.Ints.{negsuc}
use toy_tstat.Common.Chars.{Bytes, codes, show_int, show_nat, digits}
use toy_tstat.Jems as Ser
use toy_tstat.Jems.{Jems, Level}
use toy_tstat.Jems.Feed.{feed, quote, escape, escape_byte}
use toy_tstat.Jems.Tree.{
  Value, null, boolean, int, arr, obj, nil, cons, end, field, show, write, depth, size, HasInt64s,
}
use toy_tstat.Jems.Tree.Shown.{write-show}

abbrev keep : ℕ → Bytes → Bytes
keep c written = c ∷ written

abbrev example_value : Value
example_value = obj (
    field (codes "a") (arr (cons (int (negsuc 11)) (cons null nil)))
      (field (codes "b") (obj end) (field (codes "c\"") (boolean true) end)))

abbrev three_levels : List Level
three_levels = Ser.unset ∷ Ser.unset ∷ Ser.unset ∷ []

-- The memory of a serializer before `jems_init`.
abbrev raw : Jems Bytes
raw = record { levels = []; max_level = 7; curr_level = 5; arg = codes "old" }

show_example : show example_value ≡ codes "{\"a\":[-12,null],\"b\":{},\"c\\\"\":true}"
unfolding show quote escape escape_byte show_int show_nat digits
show_example = refl

write-show_example :
    let k = write keep (Ser.init raw three_levels 3 []) example_value in
    (k.arg ≡ feed keep (show example_value) []) × (Ser.curr_level k ≡ 0) × (Ser.item_count k ≡ 1)
unfolding depth size HasInt64s
write-show_example =
    write-show keep example_value raw three_levels 3 [] (omega arith) (omega arith) (omega arith)
      (omega arith) ((omega arith, (tt, tt)), (tt, (tt, tt)))
