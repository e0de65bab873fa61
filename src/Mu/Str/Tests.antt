-- ===== src/Mu/Str/Tests.antt =====
-- Strings in a buffer that is longer than they are.
use toy_tstat.Common.{ℕ, ◌%◌, ◌^◌, false, ◌≡◌, refl, some, arith}
use toy_tstat.Common.Ints.{negsuc}
use toy_tstat.Common.Chars.{codes, read_digits, digits, show_nat, show_int}
use toy_tstat.Mu.Str.{Str}
use toy_tstat.Mu.Str.Compare.{text}
use toy_tstat.Mu.Str.Find.{find}
use toy_tstat.Mu.Str.Find.First.{Found, find_first}
use toy_tstat.Mu.Str.Parse.{parse_uint, parse_int}
use toy_tstat.Mu.Str.Parse.Number.{parse_uint-read_digits, parse_int-show_int}

abbrev word : Str
word = record { bytes = codes "abcdef"; len = 4 }

abbrev inner : Str
inner = record { bytes = codes "cd"; len = 2 }

find_example :
    (r : ℕ) × (find word inner false ≡ some r) × Found word.bytes inner.bytes 2 false 0 3 r
find_example =
    find_first word inner false (omega arith) (omega arith) (omega arith) (omega arith)
      (omega arith)

abbrev number : Str
number = record { bytes = codes "300,"; len = 4 }

parse_uint_example : parse_uint 8 number ≡ read_digits 0 (text number) % 2 ^ 8
parse_uint_example = parse_uint-read_digits 8 number (omega arith)

abbrev negative : Str
negative = record { bytes = codes "-12,"; len = 3 }

parse_int_example : parse_int 8 negative ≡ negsuc 11
unfolding digits show_nat show_int
parse_int_example = parse_int-show_int 7 (negsuc 11) negative (omega arith) refl (omega arith)
