-- ===== src/Common/Bits.antt =====
-- `&` of the C code at variables: a mask of low bits is a remainder, and `n & (n - 1)` is zero for
-- a power of two only.
use Prim.Native.Nat.{
  ℕ, zero, suc, ◌+◌, ◌-◌, ◌*◌, ◌/◌, ◌%◌, ◌^◌, ◌≤◌, ◌<◌, min, bit_and, digits, bit_and-bitwise,
}
use mathlib.Core.Path.{◌≡◌, refl, ap, ◌≡⟨◌⟩◌, ◌∎}
use mathlib.Core.Logic.{◌⊎◌, inl, inr}
use native.Mathlib.Nat.{pow-suc, one-le-pow, div-add-mod, mod-lt, mod-eq_of_lt}
use native.Mathlib.Nat.{mul-add-mod_self_left}
use native.Mathlib.Omega.{arith}

-- The recursion on binary digits that `bit_and` stands for, at its step bound `n`.
abbrev digitwise : ℕ → ℕ → ℕ → ℕ
digitwise n x y = digits (λ _. zero) min n x y

digitwise_bound : (n m x y : ℕ) → x ≤ n → x ≤ m → digitwise n x y ≡ digitwise m x y
digitwise_bound zero zero x y p q = refl
digitwise_bound zero (suc m) zero y p q = refl
digitwise_bound zero (suc m) (suc x) y p q = absurd (omega arith)
digitwise_bound (suc n) zero zero y p q = refl
digitwise_bound (suc n) zero (suc x) y p q = absurd (omega arith)
digitwise_bound (suc n) (suc m) zero y p q = refl
digitwise_bound (suc n) (suc m) (suc x) y p q =
    omega (arith, digitwise_bound n m (suc x / 2) (y / 2) (omega arith) (omega arith))

bit_and_last : (x y : ℕ) → bit_and x y ≡ bit_and (x / 2) (y / 2) * 2 + min (x % 2) (y % 2)
bit_and_last zero y = omega (arith, bit_and-bitwise 0 y, bit_and-bitwise 0 (y / 2))
bit_and_last (suc x) y = omega (
  arith,
  bit_and-bitwise (suc x) y,
  bit_and-bitwise (suc x / 2) (y / 2),
  digitwise_bound x (suc x / 2) (suc x / 2) (y / 2) (omega arith) (omega arith),
)

bit_and-zero_below : (n x : ℕ) → x ≤ n → bit_and x 0 ≡ 0
bit_and-zero_below n zero h = refl
bit_and-zero_below zero (suc x) h = absurd (omega arith)
bit_and-zero_below (suc n) (suc x) h =
    omega (arith, bit_and_last (suc x) 0, bit_and-zero_below n (suc x / 2) (omega arith))

bit_and_self_below : (n x : ℕ) → x ≤ n → bit_and x x ≡ x
bit_and_self_below n zero h = refl
bit_and_self_below zero (suc x) h = absurd (omega arith)
bit_and_self_below (suc n) (suc x) h =
    omega (arith, bit_and_last (suc x) (suc x), bit_and_self_below n (suc x / 2) (omega arith))

-- The remainder by `2 * p`, digit by digit.
mod_double : (x p : ℕ) → 0 < p → x % (2 * p) ≡ x / 2 % p * 2 + x % 2
mod_double x p h =
    x % (2 * p)
    ≡⟨ ap (λ t. t % (2 * p)) split ⟩ (2 * p * (x / 2 / p) + (x / 2 % p * 2 + x % 2)) % (2 * p)
    ≡⟨ mul-add-mod_self_left (2 * p) (x / 2 / p) _ ⟩ (x / 2 % p * 2 + x % 2) % (2 * p)
    ≡⟨ mod-eq_of_lt small ⟩ x / 2 % p * 2 + x % 2 ∎
  where
    split : x ≡ 2 * p * (x / 2 / p) + (x / 2 % p * 2 + x % 2)
    split = omega (arith, div-add-mod (x / 2) p)

    small : x / 2 % p * 2 + x % 2 < 2 * p
    small = omega (arith, mod-lt (x / 2) h)

-- `x & (2 ^ k - 1)` is `x % 2 ^ k`.
pub bit_and_mask : (k x : ℕ) → bit_and x (2 ^ k - 1) ≡ x % 2 ^ k
bit_and_mask zero x = omega (arith, bit_and-zero_below x x)
bit_and_mask (suc k) x =
    rw (double, bit_and_last x (2 * 2 ^ k - 1), half, bit_and_mask k (x / 2))
      (omega (arith, mod_double x (2 ^ k) (one-le-pow k 2 (omega arith)), one-le-pow k 2))
  where
    double : 2 ^ suc k ≡ 2 * 2 ^ k
    double = omega (arith, pow-suc 2 k)

    half : (2 * 2 ^ k - 1) / 2 ≡ 2 ^ k - 1
    half = omega (arith, one-le-pow k 2)

low_digit : (x : ℕ) → (x % 2 ≡ 0) ⊎ (x % 2 ≡ 1)
low_digit x = omega arith

-- A number is a power of two if `n & (n - 1)` is 0.
pow_of_bit_and : (b n : ℕ) → n ≤ b → 0 < n → bit_and n (n - 1) ≡ 0 → (k : ℕ) × (n ≡ 2 ^ k)
pow_of_bit_and zero n h p e = absurd (omega arith)
pow_of_bit_and (suc b) n h p e = elim (low_digit n) [
  | inl even ↦ (
    suc (pow_of_bit_and b (n / 2) (omega arith) (omega arith) (below even)).0,
    omega (
      arith,
      pow-suc 2 (pow_of_bit_and b (n / 2) (omega arith) (omega arith) (below even)).0,
      (pow_of_bit_and b (n / 2) (omega arith) (omega arith) (below even)).1,
    ),
  )
  | inr odd ↦ (0, omega (arith, none_left odd))
]
  where
    below : n % 2 ≡ 0 → bit_and (n / 2) (n / 2 - 1) ≡ 0
    below even =
        let q : (n - 1) / 2 ≡ n / 2 - 1 = omega arith in
        rw (← q) (omega (arith, bit_and_last n (n - 1)))

    none_left : n % 2 ≡ 1 → n / 2 ≡ 0
    none_left odd =
        let q : (n - 1) / 2 ≡ n / 2 = omega arith in
        let s : bit_and (n / 2) ((n - 1) / 2) ≡ n / 2 =
          rw q (bit_and_self_below (n / 2) (n / 2) (omega arith)) in
        omega (arith, bit_and_last n (n - 1))

pub pow_of_test : (n : ℕ) → 0 < n → bit_and n (n - 1) ≡ 0 → (k : ℕ) × (n ≡ 2 ^ k)
pow_of_test n = pow_of_bit_and n n (omega arith)
