-- ===== src/Mu/Ring.antt =====
-- What a circular store of pointers holds from an index on. `mu_spsc.c` and `mu_mqueue.c` both keep
-- their items this way.
use toy_tstat.Common.{
  ℕ, zero, suc, ◌+◌, ◌-◌, ◌%◌, ◌≤◌, ◌<◌, ◌≡◌, ◌≢◌, refl, ap, ap₂, sym, ◌∙◌, List, [], ◌∷◌, ◌++◌,
  length, length-append, get_or, set, get_or-set_self, get_or-set_ne, arith, dec_lt,
}
use native.Mathlib.Nat.{mod-add-mod, mod-eq_of_lt, mod-eq-sub-mod, mod-lt}

module _ (store : List ℕ) (size : ℕ) where
  -- `n` items from index `h` on, going round at `size`.
  abbrev pub slots : ℕ → ℕ → List ℕ
  slots h zero = []
  slots h (suc n) = slots h n ++ get_or store ((h + n) % size) 0 ∷ []

  pub length-slots : (h n : ℕ) → length (slots h n) ≡ n
  length-slots h zero = refl
  length-slots h (suc n) =
      omega
        (arith, length-append (slots h n) (get_or store ((h + n) % size) 0 ∷ []), length-slots h n)

  -- The first item stands at `h`, and the others follow.
  pub slots-cons : (h n : ℕ) → slots h (suc n) ≡ get_or store (h % size) 0 ∷ slots (h + 1) n
  slots-cons h zero = ap (λ k. get_or store (k % size) 0 ∷ []) (omega arith)
  slots-cons h (suc n) =
      ap₂ (λ (xs : List ℕ) (k : ℕ). xs ++ get_or store (k % size) 0 ∷ []) (slots-cons h n)
        (omega arith)

  -- The start counts only up to a multiple of `size`.
  pub slots-mod : (h n : ℕ) → slots (h % size) n ≡ slots h n
  slots-mod h zero = refl
  slots-mod h (suc n) =
      ap₂ (λ (xs : List ℕ) (k : ℕ). xs ++ get_or store k 0 ∷ []) (slots-mod h n)
        (mod-add-mod h size n)

-- Two places less than `size` apart are different slots.
mod_ahead : (size a d : ℕ) → a < size → 0 < d → d < size → (a + d) % size ≢ a
mod_ahead size a d lt pos below = elim (dec_lt (a + d) size) [
  | yes p ↦ omega (arith, mod-eq_of_lt p)
  | no p ↦ omega (
    arith,
    mod-eq-sub-mod {n = a + d} {m = size} (omega arith),
    mod-eq_of_lt {n = a + d - size} {m = size} (omega arith),
  )
]

pub mod-ne : (size h i n : ℕ) → i < n → n < size → (h + i) % size ≢ (h + n) % size
mod-ne size h i n p q e =
    mod_ahead size ((h + i) % size) (n - i) (mod-lt (h + i) (omega arith)) (omega arith)
      (omega arith) (mod-add-mod (h + i) size (n - i) ∙ ap (λ k. k % size) rejoin ∙ sym e)
  where
    rejoin : h + i + (n - i) ≡ h + n
    rejoin = omega arith

-- A write to the slot behind `m` items leaves them as they are.
pub slots-set_after :
    (store : List ℕ) (size x h m n : ℕ)
    → m ≤ n
    → n < size
    → slots (set store ((h + n) % size) x) size h m ≡ slots store size h m
slots-set_after store size x h zero n p q = refl
slots-set_after store size x h (suc m) n p q =
    ap₂ (λ (xs : List ℕ) (y : ℕ). xs ++ y ∷ []) (slots-set_after store size x h m n (omega arith) q)
      (get_or-set_ne store _ _ x 0 (λ e. mod-ne size h m n p q (sym e)))

-- A write just behind the items adds the value at their end.
pub slots-set :
    (store : List ℕ) (size x h n : ℕ)
    → size ≤ length store
    → n < size
    → slots (set store ((h + n) % size) x) size h (suc n) ≡ slots store size h n ++ x ∷ []
slots-set store size x h n p q =
    ap₂ (λ (xs : List ℕ) (y : ℕ). xs ++ y ∷ []) (slots-set_after store size x h n n (omega arith) q)
      (get_or-set_self store _ x 0 (omega (arith, mod-lt (h + n) {m = size} (omega arith))))
