-- ===== src/Mu/Time/Rounds.antt =====
-- A duration in milliseconds, turned into ticks and back.
use toy_tstat.Common.{
  ℕ, zero, suc, ◌+◌, ◌-◌, ◌*◌, ◌/◌, ◌%◌, ◌^◌, ◌<◌, ◌≤◌, ◌≡◌, refl, sym, ap, ◌∙◌, Bool, true, false,
  some, arith,
}
use mathlib.Core.Path.{subst}
use native.Mathlib.Nat.{
  le_of_mul-le-mul_right, lt_of_mul-lt-mul_right, mul-le-mul, div-mul-le_self, lt-div-mul-add,
  zero-div, add-mul, mul_assoc, mul-div_cancel,
}
use toy_tstat.Common.Ints.{ℤ, pos, negsuc, neg, abs}
use toy_tstat.Mu.Time.Millis.{times, quot, fits_int64, to_int32, rel_to_ms, ms_to_rel}

-- The integer with this magnitude, negative or not.
abbrev signed : Bool → ℕ → ℤ
signed false a = pos a
signed true a = neg a

abbrev is_negative : ℤ → Bool
is_negative (pos n) = false
is_negative (negsuc n) = true

signed-abs : (z : ℤ) → signed (is_negative z) (abs z) ≡ z
signed-abs (pos n) = refl
signed-abs (negsuc n) = refl

times-signed : (s : Bool) (a n : ℕ) → times (signed s a) n ≡ signed s (a * n)
times-signed false a n = refl
times-signed true zero n = let none_of : 0 * n ≡ 0 = omega arith in rw none_of refl
times-signed true (suc a) n = refl

quot-signed : (s : Bool) (a n : ℕ) → quot (signed s a) n ≡ signed s (a / n)
quot-signed false a n = refl
quot-signed true zero n = rw (zero-div n) refl
quot-signed true (suc a) n = refl

fits-signed : (s : Bool) (a : ℕ) → a < 2 ^ 63 → fits_int64 (signed s a) ≡ true
fits-signed false a h = ground arith
fits-signed true zero h = refl
fits-signed true (suc a) h = ground arith

to_int32-signed : (s : Bool) (a : ℕ) → a < 2 ^ 31 → to_int32 (signed s a) ≡ signed s a
to_int32-signed false a h = ground arith
to_int32-signed true zero h = refl
to_int32-signed true (suc a) h = ground arith

-- There and back loses at most one, and nothing if the ticks are a multiple.
module _ (t a : ℕ) (h : 1000 ≤ t) where
  abbrev back : ℕ
  back = a * t / 1000 * 1000 / t

  bounds : (back ≤ a) × (a ≤ back + 1)
  bounds = (
    le_of_mul-le-mul_right {k = t} (omega (arith, down, up)) (omega arith),
    omega (
      arith,
      lt_of_mul-lt-mul_right t {m = a} {n = back + 2}
          (omega (arith, below, over, add-mul back 2 t)),
    ),
  )
    where
      ticks : ℕ
      ticks = a * t / 1000

      down : back * t ≤ ticks * 1000
      down = div-mul-le_self (ticks * 1000) t

      up : ticks * 1000 ≤ a * t
      up = div-mul-le_self (a * t) 1000

      below : a * t < ticks * 1000 + 1000
      below = lt-div-mul-add (omega arith)

      over : ticks * 1000 < back * t + t
      over = lt-div-mul-add (omega arith)

  exact : t % 1000 ≡ 0 → back ≡ a
  exact e = ap (λ p. p / t) whole ∙ mul-div_cancel a (omega arith)
    where
      k : ℕ
      k = t / 1000

      thousands : a * t ≡ a * k * 1000
      thousands = ap (λ x. a * x) (omega (arith, e)) ∙ sym (mul_assoc a k 1000)

      whole : a * t / 1000 * 1000 ≡ a * t
      whole =
          ap (λ p. p / 1000 * 1000) thousands
          ∙ ap (λ q. q * 1000) (mul-div_cancel (a * k) (omega arith))
          ∙ sym thousands

abs-signed : (s : Bool) (a : ℕ) → abs (signed s a) ≡ a
abs-signed false a = refl
abs-signed true zero = refl
abs-signed true (suc a) = refl

in_range : (a b : ℕ) → a < 2 ^ 31 → b < 2 ^ 32 → a * b < 2 ^ 63
in_range a b h k = omega (
  arith,
  mul-le-mul {n₁ = a} {m₁ = b} {n₂ = 2 ^ 31 - 1} {m₂ = 2 ^ 32 - 1} (omega arith) (omega arith),
)

ms_to_rel-signed :
    (s : Bool) (a ticks : ℕ)
    → a * ticks < 2 ^ 63
    → ms_to_rel ticks (signed s a) ≡ some (signed s (a * ticks / 1000))
unfolding ms_to_rel
ms_to_rel-signed s a ticks h =
    rw (times-signed s a ticks, fits-signed s (a * ticks) h)
      (ap some (quot-signed s (a * ticks) 1000))

rel_to_ms-signed :
    (s : Bool) (d ticks : ℕ)
    → d * 1000 < 2 ^ 63
    → d * 1000 / ticks < 2 ^ 31
    → rel_to_ms ticks (signed s d) ≡ some (signed s (d * 1000 / ticks))
unfolding rel_to_ms
rel_to_ms-signed s d ticks h k =
    rw (times-signed s d 1000, fits-signed s (d * 1000) h, quot-signed s (d * 1000) ticks)
      (ap some (to_int32-signed s (d * 1000 / ticks) k))

-- Milliseconds of a magnitude below 2 ^ 31, turned into ticks and back, where a second has 1000 ticks or
-- more, but fewer than 2 ^ 32: no product is out of range, and the result is the number or one nearer to
-- zero, and just the number if the ticks of a second are a multiple of 1000.
pub rel_to_ms-ms_to_rel :
    (ticks : ℕ) (ms : ℤ)
    → 1000 ≤ ticks
    → ticks < 2 ^ 32
    → abs ms < 2 ^ 31
    → (dt : ℤ) × (ms' : ℤ) × (ms_to_rel ticks ms ≡ some dt)
      × (rel_to_ms ticks dt ≡ some ms')
      × (abs ms' ≤ abs ms)
      × (abs ms ≤ abs ms' + 1)
      × (ticks % 1000 ≡ 0 → ms' ≡ ms)
rel_to_ms-ms_to_rel ticks ms many few small =
    let s = is_negative ms in
    let a = abs ms in
    let (le, ge) = bounds ticks a many in
    let fits = in_range a ticks small few in
    let same = abs-signed s (back ticks a many) in
    (
      signed s (a * ticks / 1000),
      signed s (back ticks a many),
      subst (λ m. ms_to_rel ticks m ≡ some (signed s (a * ticks / 1000))) (signed-abs ms)
          (ms_to_rel-signed s a ticks fits),
      rel_to_ms-signed s (a * ticks / 1000) ticks (omega (arith, div-mul-le_self (a * ticks) 1000))
          (omega arith),
      omega (arith, same),
      omega (arith, same),
      λ e. ap (signed s) (exact ticks a many e) ∙ signed-abs ms,
    )
