-- ===== src/Mu/Time.antt =====
-- mulib/mulib/platform/mu_time.c: times are uint64_t counts of clock ticks that wrap, durations are
-- int64_t. A conversion between the two keeps the bits.
pub mod Millis
pub mod Order
pub mod Rounds
mod Tests
use toy_tstat.Common.{ℕ, ◌+◌, ◌-◌, ◌%◌, ◌^◌, Bool, ltb, ◌==◌, if◌then◌else◌}
use toy_tstat.Common.Ints.{ℤ, pos, negsuc, ltb_ℤ}

-- uint64_t to int64_t.
abbrev pub to_int64 : ℕ → ℤ
to_int64 n = if ltb n (2 ^ 63) then pos n else negsuc (2 ^ 64 - 1 - n)

-- int64_t to uint64_t.
abbrev pub of_int64 : ℤ → ℕ
of_int64 (pos n) = n % 2 ^ 64
of_int64 (negsuc n) = (2 ^ 64 - 1 - n) % 2 ^ 64

unfoldable pub offset : ℕ → ℤ → ℕ
offset t dt = (t + of_int64 dt) % 2 ^ 64

unfoldable pub difference : ℕ → ℕ → ℤ
difference t1 t2 = to_int64 ((t1 + 2 ^ 64 - t2) % 2 ^ 64)

unfoldable pub precedes : ℕ → ℕ → Bool
unfolding difference
precedes t1 t2 = ltb_ℤ (difference t1 t2) (pos 0)

pub equals : ℕ → ℕ → Bool
equals t1 t2 = t1 == t2

pub follows : ℕ → ℕ → Bool
unfolding difference
follows t1 t2 = ltb_ℤ (pos 0) (difference t1 t2)
