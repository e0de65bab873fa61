-- ===== src/Common/Decimal.antt =====
-- Printed integers: how long they are, and that `atoi` reads them back.
use Prim.Native.Nat.{ℕ, zero, suc, ◌+◌, ◌-◌, ◌*◌, ◌/◌, ◌%◌, ◌^◌, ◌≤◌, ◌<◌}
use mathlib.Core.Path.{◌≡◌, refl, sym, ap, ◌∙◌}
use mathlib.Core.Logic.{inl, inr}
use mathlib.Core.Bool.{true, false}
use mathlib.Core.List.{[], ◌∷◌, ◌++◌}
use native.Mathlib.Nat.{pow-suc}
use native.Mathlib.Omega.{arith}
use toy_tstat.Common.Tests.{◌==◌, Bool-cases}
use toy_tstat.Common.Lists.{length, take, take-all}
use toy_tstat.Common.Ints.{ℤ, pos, negsuc, IsInt32, neg}
use toy_tstat.Common.Chars.{
  Bytes, digits, show_nat, show_int, read_digits, atoi, is_digit, is_space,
}

pub length-digits :
    (k fuel n : ℕ) (out : Bytes) → n < 10 ^ suc k → length (digits fuel n out) ≤ suc k + length out
unfolding digits
length-digits k zero n out h = omega arith
length-digits zero (suc fuel) n out h = ground arith
length-digits (suc k) (suc fuel) n out h =
    ground (arith, pow-suc 10 (suc k), length-digits k fuel (n / 10) ((b'0' + n % 10) ∷ out))

length-show_int : (z : ℤ) → IsInt32 z → length (show_int z) ≤ 11
unfolding show_int
length-show_int (pos n) i = omega (arith, length-digits 9 n n [], i.below)
length-show_int (negsuc n) i = omega (arith, length-digits 9 (suc n) (suc n) [], i.above)

-- A buffer of 21 characters takes any `int`.
pub show_int_fits : (z : ℤ) → IsInt32 z → take 21 (show_int z) ≡ show_int z
show_int_fits z i = take-all 21 (show_int z) (omega (arith, length-show_int z i))

pub digits-append :
    (fuel n : ℕ) (out rest : Bytes) → digits fuel n out ++ rest ≡ digits fuel n (out ++ rest)
unfolding digits
digits-append zero n out rest = refl
digits-append (suc fuel) n out rest = elim (Bool-cases (n / 10 == 0)) [
  | inl e ↦ rw e
  | inr e ↦ rw e (digits-append fuel (n / 10) ((b'0' + n % 10) ∷ out) rest)
]

pub digit_ok : (n : ℕ) → is_digit (b'0' + n % 10) ≡ true
digit_ok n = ground arith

-- Reading back `n` digits more.
read_digits-digits :
    (fuel n : ℕ) (out : Bytes) → n ≤ fuel → read_digits 0 (digits fuel n out) ≡ read_digits n out
unfolding digits read_digits
read_digits-digits zero n out h = let none_of : n ≡ 0 = omega arith in rw none_of
read_digits-digits (suc fuel) n out h = elim (Bool-cases (n / 10 == 0)) [
  | inl e ↦
      let value : 0 * 10 + (b'0' + n % 10 - b'0') ≡ n = ground arith in
      rw (e, digit_ok n) (ap (λ k. read_digits k out) value)
  | inr e ↦
      let value : n / 10 * 10 + (b'0' + n % 10 - b'0') ≡ n = omega arith in
      rw e (
        read_digits-digits fuel (n / 10) ((b'0' + n % 10) ∷ out) (omega arith)
        ∙ rw (digit_ok n) (ap (λ k. read_digits k out) value))
]

-- A text that goes on with no digit.
abbrev pub NoDigit : Bytes → Type 0
NoDigit [] = Unit
NoDigit (c ∷ cs) = is_digit c ≡ false

read_digits_stop : (n : ℕ) (rest : Bytes) → NoDigit rest → read_digits n rest ≡ n
unfolding read_digits
read_digits_stop n [] h = refl
read_digits_stop n (c ∷ cs) h = rw h

-- Digits begin with a digit.
pub digits_head :
    (fuel n : ℕ) (out : Bytes)
    → (c : ℕ) × (cs : Bytes) × (digits fuel n out ≡ c ∷ cs) × (is_digit c ≡ true)
unfolding digits
digits_head zero n out = (b'0' + n % 10, out, refl, digit_ok n)
digits_head (suc fuel) n out = elim (Bool-cases (n / 10 == 0)) [
  | inl e ↦ (b'0' + n % 10, out, rw e, digit_ok n)
  | inr e ↦ rw e (digits_head fuel (n / 10) ((b'0' + n % 10) ∷ out))
]

-- A text that begins with a digit has no space or sign to skip.
atoi-digit : (c : ℕ) (cs : Bytes) → is_digit c ≡ true → atoi (c ∷ cs) ≡ pos (read_digits 0 (c ∷ cs))
unfolding atoi
atoi-digit c cs h =
    let no_space : is_space c ≡ false = ground arith in
    let no_minus : (c == b'-') ≡ false = ground arith in
    let no_plus : (c == b'+') ≡ false = ground arith in rw (no_space, no_minus, no_plus) refl

atoi-minus : (cs : Bytes) → atoi (b'-' ∷ cs) ≡ neg (read_digits 0 cs)
unfolding atoi
atoi-minus cs = refl

pub read_digits-show_nat :
    (n : ℕ) (rest : Bytes) → NoDigit rest → read_digits 0 (digits n n rest) ≡ n
read_digits-show_nat n rest h =
    read_digits-digits n n rest (omega arith) ∙ read_digits_stop n rest h

-- `atoi` reads back what `%lld` printed, if no digit follows.
pub atoi-show_int : (z : ℤ) (rest : Bytes) → NoDigit rest → atoi (show_int z ++ rest) ≡ z
unfolding show_int show_nat
atoi-show_int (pos n) rest h =
    let (c, cs, begins, is_dig) = digits_head n n rest in
    rw (digits-append n n [] rest, begins)
      (atoi-digit c cs is_dig
        ∙ ap pos (sym (ap (read_digits 0) begins) ∙ read_digits-show_nat n rest h))
atoi-show_int (negsuc n) rest h =
    rw (digits-append (suc n) (suc n) [] rest)
      (atoi-minus (digits (suc n) (suc n) rest) ∙ ap neg (read_digits-show_nat (suc n) rest h))
