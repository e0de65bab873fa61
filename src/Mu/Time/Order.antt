-- ===== src/Mu/Time/Order.antt =====
-- The order of times is that of their distances from a common base, across a wrap of the clock, as
-- long as these distances stay below half the range.
use toy_tstat.Common.{ℕ, ◌+◌, ◌-◌, ◌%◌, ◌^◌, ◌≤◌, ◌<◌, ◌≡◌, ◌≢◌, ltb, arith}
use toy_tstat.Common.Ints.{ℤ, pos, negsuc, pos_part, neg_part}
use toy_tstat.Mu.Time.{offset, difference, precedes, follows}

-- A value of the 64-bit types.
abbrev pub IsWord : ℕ → Type 0
IsWord n = n < 2 ^ 64

pub record IsInt64 (z : ℤ) : Type 0 where
  pub above : neg_part z ≤ 2 ^ 63
  pub below : pos_part z < 2 ^ 63

-- How far a time lies behind a base.
abbrev pub since : ℕ → ℕ → ℕ
since base t = (t + 2 ^ 64 - base) % 2 ^ 64

-- A time that is less than half the range behind the base.
abbrev pub Within : ℕ → ℕ → Type 0
Within base t = IsWord t × (since base t < 2 ^ 63)

-- A duration added to a time, wrapping or not, is their difference.
pub difference-offset : (t : ℕ) (dt : ℤ) → IsWord t → IsInt64 dt → difference (offset t dt) t ≡ dt
unfolding difference offset
difference-offset t (pos n) w i = ground arith
difference-offset t (negsuc n) w i = ground arith

-- For times less than half the range behind `base`, `mu_time_follows` compares the distances from it.
pub follows-since :
    (base a b : ℕ)
    → IsWord base
    → Within base a
    → Within base b
    → follows a b ≡ ltb (since base b) (since base a)
unfolding follows
follows-since base a b w wa wb = ground arith

-- For times less than half the range behind `base`, `mu_time_precedes` compares the distances from it.
pub precedes-since :
    (base a b : ℕ)
    → IsWord base
    → Within base a
    → Within base b
    → precedes a b ≡ ltb (since base a) (since base b)
unfolding precedes
precedes-since base a b w wa wb = ground arith

-- Without a common base: `mu_time_precedes` is `mu_time_follows` the other way round, unless the
-- times lie exactly half the range apart.
pub precedes-follows :
    (a b : ℕ) → IsWord a → IsWord b → since b a ≢ 2 ^ 63 → precedes a b ≡ follows b a
unfolding precedes follows
precedes-follows a b wa wb ne = ground arith
