-- ===== src/Mu/Str/Trim.antt =====
-- What `mu_str_rtrim` leaves of a string.
use toy_tstat.Common.{
  ℕ, suc, ◌+◌, ◌-◌, ◌<◌, ◌≡◌, refl, Bool, false, some, ltb, ◌==◌, ==_ne, get_or, arith,
}
use toy_tstat.Common.Chars.{Bytes}
use toy_tstat.Mu.Str.{
  init, rtrim, rmatched, rmatch_from, slice, slice_between, slice_index, not_found,
}

-- A string whose last byte is not to be trimmed loses that byte all the same.
pub rtrim_loses :
    (predicate : ℕ → Bool) (bytes : Bytes) (n : ℕ)
    → suc n < not_found
    → predicate (get_or bytes n 0) ≡ false
    → rtrim predicate (init bytes (suc n)) ≡ some (init bytes n)
unfolding rtrim rmatched rmatch_from slice slice_between slice_index init
rtrim_loses predicate bytes n small keep =
    let found : (n == not_found) ≡ false = ==_ne n not_found (λ e. omega (arith, e)) in
    let inside : ltb (suc n) n ≡ false = ground arith in
    let from_start : ltb (suc n) 0 ≡ false = ground arith in
    let forward : ltb (n + 0) 0 ≡ false = ground arith in
    let whole : n - 0 ≡ n = omega arith in rw (keep, found, inside, from_start, forward, whole) refl
