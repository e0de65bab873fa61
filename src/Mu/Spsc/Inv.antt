-- ===== src/Mu/Spsc/Inv.antt =====
-- The representation invariant of `mu_spsc_t`: the mask is that of a power of two, and both indices
-- stay inside the store.
use toy_tstat.Common.{
  ℕ, zero, suc, ◌+◌, ◌-◌, ◌%◌, ◌^◌, ◌≤◌, ◌<◌, ◌≡◌, refl, ap, sym, ◌∙◌, ◌↔◌, ◌⊎◌, List, length,
  length-set, arith,
}
use toy_tstat.Common.Bits.{bit_and_mask, pow_of_test}
use toy_tstat.Mu.Spsc.{Spsc, err_none, err_full, init, put, get}
use native.Mathlib.Nat.{mod-lt, mod_self, one-le-pow, pow-suc}
use Prim.Native.Nat.{bit_and}

pub record IsValid (q : Spsc) : Type 0 where
  pub bits : ℕ
  pub size : q.mask + 1 ≡ 2 ^ suc bits
  pub fits : q.mask < length q.store
  pub head_in : q.head ≤ q.mask
  pub tail_in : q.tail ≤ q.mask

-- With a mask of low bits, `&` is the remainder by the size of the store.
pub bit_and-mod : {q : Spsc} (x : ℕ) → IsValid q → bit_and x q.mask ≡ x % (q.mask + 1)
bit_and-mod {q} x v =
    ap (bit_and x) low ∙ bit_and_mask (suc v.bits) x ∙ ap (λ k. x % k) (sym v.size)
  where
    low : q.mask ≡ 2 ^ suc v.bits - 1
    low = omega (arith, v.size)

pub bit_and-le : {q : Spsc} (x : ℕ) → IsValid q → bit_and x q.mask ≤ q.mask
bit_and-le {q} x v = omega (arith, bit_and-mod x v, mod-lt x {m = q.mask + 1} (omega arith))

tested :
    (q : Spsc) (store : List ℕ) (cap : ℕ)
    → (init q store cap).0 ≡ err_none
    → (1 < cap) × (bit_and cap (cap - 1) ≡ 0)
unfolding init
tested q store cap e = ground arith

exponent : (cap k : ℕ) → 1 < cap → cap ≡ 2 ^ k → (j : ℕ) × (cap ≡ 2 ^ suc j)
exponent cap zero p e = absurd (omega arith)
exponent cap (suc k) p e = (k, e)

clear_low : (cap k : ℕ) → cap ≡ 2 ^ suc k → (1 < cap) × (bit_and cap (cap - 1) ≡ 0)
clear_low cap k e =
    (omega (arith, pow-suc 2 k, one-le-pow k 2), rw e (bit_and_mask (suc k) _ ∙ mod_self _))

-- `mu_spsc_init` accepts exactly the capacities 2, 4, 8, ….
pub init_accepts :
    (q : Spsc) (store : List ℕ) (cap : ℕ)
    → ((init q store cap).0 ≡ err_none) ↔ ((k : ℕ) × (cap ≡ 2 ^ suc k))
unfolding init
init_accepts q store cap = (
  (λ e.
      let (big, zero_and) = tested q store cap e in
      let (k, p) = pow_of_test cap (omega arith) zero_and in exponent cap k big p),
  (λ (k, e). let (big, zero_and) = clear_low cap k e in ground arith),
)

pub initialised :
    (q : Spsc) (store : List ℕ) (cap : ℕ)
    → (init q store cap).0 ≡ err_none
    → (init q store cap).1 ≡ record { mask = cap - 1; head = 0; tail = 0; store = store }
unfolding init
initialised q store cap e = ground arith

-- An accepted store that holds `capacity` pointers makes a valid queue with equal indices.
pub init-IsValid :
    (q : Spsc) (store : List ℕ) (cap : ℕ)
    → cap ≤ length store
    → (init q store cap).0 ≡ err_none
    → IsValid (init q store cap).1 × ((init q store cap).1.head ≡ (init q store cap).1.tail)
init-IsValid q store cap h e =
    let (k, p) = (init_accepts q store cap).0 e in
    let big : 1 < cap = (tested q store cap e).0 in
    rw (initialised q store cap e) (
      record {
        bits = k;
        size = omega arith;
        fits = omega arith;
        head_in = omega arith;
        tail_in = omega arith;
      },
      refl,
    )

-- `mu_spsc_put` keeps the invariant.
pub put-IsValid : {q : Spsc} (x : ℕ) → IsValid q → IsValid (put q x).1
unfolding put
put-IsValid {q} x v = ground (arith, length-set q.store q.tail x, bit_and-le (q.tail + 1) v)

-- `mu_spsc_get` keeps the invariant.
pub get-IsValid : {q : Spsc} → IsValid q → IsValid (get q).2
unfolding get
get-IsValid {q} v = ground (arith, bit_and-le (q.head + 1) v)

pub put_answers : (q : Spsc) (x : ℕ) → let e = (put q x).0 in (e ≡ err_none) ⊎ (e ≡ err_full)
unfolding put
put_answers q x = ground arith
