-- ===== src/Jems/Tests.antt =====
-- A serializer at the last of its two levels.
use toy_tstat.Common.{ℕ, ◌≡◌, refl, true, false, [], ◌∷◌, arith}
use toy_tstat.Common.Chars.{Bytes, codes}
use toy_tstat.Jems as Ser
use toy_tstat.Jems.{Jems, Level}
use toy_tstat.Jems.Deep.{close-open_deep}
use toy_tstat.Jems.Feed.{item}

abbrev keep : ℕ → Bytes → Bytes
keep c written = c ∷ written

abbrev last : Jems Bytes
last = record {
  levels =
      record { item_count = 1; is_object = true }
      ∷ record { item_count = 2; is_object = false }
      ∷ [];
  max_level = 2;
  curr_level = 1;
  arg = [];
}

close-open_deep_example :
    (Ser.array_close keep (Ser.array_open keep last)
      ≡ record (item keep last (codes "[]")) { curr_level = 0 })
    × (Ser.object_close keep (Ser.object_open keep last)
        ≡ record (item keep last (codes "{}")) { curr_level = 0 })
close-open_deep_example = close-open_deep keep last refl (omega arith) (omega arith)
