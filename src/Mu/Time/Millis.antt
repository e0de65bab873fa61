-- ===== src/Mu/Time/Millis.antt =====
-- mulib/mulib/platform/mu_time.c: the clock, and durations in milliseconds. CLOCKS_PER_SEC is the
-- parameter `ticks`, and what `clock` answers is one of `now`. A product out of the range of int64_t is
-- undefined behaviour, and nothing here; an `int` keeps the low 32 bits.
use toy_tstat.Common.{
  ℕ, suc, ◌-◌, ◌*◌, ◌/◌, ◌%◌, ◌^◌, Bool, ◌&&◌, Option, none, some, ltb, leb, if◌then◌else◌,
}
use toy_tstat.Common.Ints.{ℤ, pos, negsuc, pos_part, neg_part, neg}
use toy_tstat.Mu.Time.{of_int64}

-- C's product with a number, and its division by one, which drops the fraction.

abbrev pub times : ℤ → ℕ → ℤ
times (pos a) n = pos (a * n)
times (negsuc a) n = neg (suc a * n)

abbrev pub quot : ℤ → ℕ → ℤ
quot (pos a) n = pos (a / n)
quot (negsuc a) n = neg (suc a / n)

abbrev pub fits_int64 : ℤ → Bool
fits_int64 z = leb (neg_part z) (2 ^ 63) && ltb (pos_part z) (2 ^ 63)

abbrev pub to_int32 : ℤ → ℤ
to_int32 z =
    let low = of_int64 z % 2 ^ 32 in if ltb low (2 ^ 31) then pos low else negsuc (2 ^ 32 - 1 - low)

pub now : ℤ → ℕ
now clock = of_int64 clock

unfoldable pub rel_to_ms : ℕ → ℤ → Option ℤ
rel_to_ms ticks dt =
    let scaled = times dt 1000 in
    if fits_int64 scaled then some (to_int32 (quot scaled ticks)) else none

unfoldable pub ms_to_rel : ℕ → ℤ → Option ℤ
ms_to_rel ticks ms =
    let scaled = times ms ticks in if fits_int64 scaled then some (quot scaled 1000) else none
