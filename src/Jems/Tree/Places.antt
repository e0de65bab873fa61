-- ===== src/Jems/Tree/Places.antt =====
-- The places inside a list and inside an object: which separator goes there, and which place is next.
use toy_tstat.Common.{
  ℕ, suc, ◌+◌, ◌%◌, ◌^◌, ◌<◌, ◌≤◌, ◌≡◌, refl, true, false, [], ◌∷◌, ◌==◌, ltb, take, take-all,
  arith,
}
use toy_tstat.Common.Ints.{ℤ, pos, negsuc, abs, add_size}
use toy_tstat.Common.Chars.{show_int, show_nat}
use toy_tstat.Common.Decimal.{length-digits}
use toy_tstat.Jems
use toy_tstat.Jems.Feed.{separator, bump}

pub int64_fits : (z : ℤ) → abs z ≤ 2 ^ 63 → take 21 (show_int z) ≡ show_int z
unfolding show_int show_nat
int64_fits (pos n) h = take-all 21 _ (omega (arith, length-digits 18 n n []))
int64_fits (negsuc n) h = take-all 21 _ (omega (arith, length-digits 18 (suc n) (suc n) []))

abbrev pub list_level : ℕ → Jems.Level
list_level n = record { item_count = n; is_object = false }

abbrev pub map_level : ℕ → Jems.Level
map_level n = record { item_count = n; is_object = true }

pub bump_list : (n : ℕ) → n + 1 < 2 ^ 64 → bump (list_level n) ≡ list_level (n + 1)
unfolding bump
bump_list n h = let plain : add_size n 1 ≡ n + 1 = omega arith in rw plain refl

pub bump_map : (n : ℕ) → n + 1 < 2 ^ 64 → bump (map_level n) ≡ map_level (n + 1)
unfolding bump
bump_map n h = let plain : add_size n 1 ≡ n + 1 = omega arith in rw plain refl

pub bump_value : (n : ℕ) → n + 2 < 2 ^ 64 → bump (map_level (n + 1)) ≡ map_level (n + 2)
unfolding bump
bump_value n h = let plain : add_size (n + 1) 1 ≡ n + 2 = omega arith in rw plain refl

pub separator_list : (n : ℕ) → separator (list_level (n + 1)) ≡ b',' ∷ []
unfolding separator
separator_list n = let more : ltb 0 (n + 1) ≡ true = ground arith in rw more refl

pub separator_key : (n : ℕ) → n % 2 ≡ 0 → separator (map_level (n + 2)) ≡ b',' ∷ []
unfolding separator
separator_key n e =
    let more : ltb 0 (n + 2) ≡ true = ground arith in
    let even : ((n + 2) % 2 == 1) ≡ false = ground arith in rw (more, even) refl

pub separator_value : (n : ℕ) → n % 2 ≡ 0 → separator (map_level (n + 1)) ≡ b':' ∷ []
unfolding separator
separator_value n e =
    let more : ltb 0 (n + 1) ≡ true = ground arith in
    let odd : ((n + 1) % 2 == 1) ≡ true = ground arith in rw (more, odd) refl
