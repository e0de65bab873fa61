-- ===== src/Mu/Time/Tests.antt =====
-- Times on both sides of a wrap of the clock.
use toy_tstat.Common.{ℕ, ◌+◌, ◌-◌, ◌%◌, ◌^◌, ◌≤◌, ◌≡◌, refl, true, some, arith}
use toy_tstat.Common.Ints.{ℤ, pos, negsuc, abs}
use toy_tstat.Mu.Time.{precedes}
use toy_tstat.Mu.Time.Millis.{rel_to_ms, ms_to_rel}
use toy_tstat.Mu.Time.Rounds.{rel_to_ms-ms_to_rel}

abbrev base : ℕ
base = 2 ^ 64 - 5

before_wrap : precedes base 3 ≡ true
unfolding precedes
before_wrap = refl

millis_example :
    (dt : ℤ) × (ms' : ℤ) × (ms_to_rel 1024 (negsuc 6) ≡ some dt)
    × (rel_to_ms 1024 dt ≡ some ms')
    × (abs ms' ≤ 7)
    × (7 ≤ abs ms' + 1)
    × (1024 % 1000 ≡ 0 → ms' ≡ negsuc 6)
millis_example = rel_to_ms-ms_to_rel 1024 (negsuc 6) (omega arith) (omega arith) (omega arith)

-- A millisecond is lost where a second has 1024 ticks.
one_lost : (ms_to_rel 1024 (pos 1) ≡ some (pos 1)) × (rel_to_ms 1024 (pos 1) ≡ some (pos 0))
unfolding ms_to_rel rel_to_ms
one_lost = (refl, refl)
