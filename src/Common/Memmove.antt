-- ===== src/Common/Memmove.antt =====
-- `memmove` inside one array, counted in elements.
use toy_tstat.Common.Lists.{length, get_or, take, drop, length-append, length-take, length-drop}
use Prim.Native.Nat.{ℕ, zero, suc, ◌+◌, ◌≤◌, ◌<◌}
use mathlib.Core.Path.{◌≡◌, refl, ap, ◌∙◌}
use mathlib.Core.List.{List, [], ◌∷◌, ◌++◌}
use native.Mathlib.Omega.{arith}

module _ {ℓ} {A : Type ℓ} where
  -- Copies `n` elements from index `src` to index `dst`.
  unfoldable pub memmove : List A → ℕ → ℕ → ℕ → List A
  memmove xs dst src n = take dst xs ++ (take n (drop src xs) ++ drop (dst + n) xs)

  get_or-append_left :
      (xs ys : List A) (j : ℕ) (d : A) → j < length xs → get_or (xs ++ ys) j d ≡ get_or xs j d
  get_or-append_left [] ys j d h = absurd (omega arith)
  get_or-append_left (x ∷ xs) ys zero d h = refl
  get_or-append_left (x ∷ xs) ys (suc j) d h = get_or-append_left xs ys j d (omega arith)

  get_or-append_right :
      (xs ys : List A) (j k : ℕ) (d : A) → j ≡ length xs + k → get_or (xs ++ ys) j d ≡ get_or ys k d
  get_or-append_right [] ys j k d h = ap (λ t. get_or ys t d) (omega arith)
  get_or-append_right (x ∷ xs) ys zero k d h = absurd (omega arith)
  get_or-append_right (x ∷ xs) ys (suc j) k d h = get_or-append_right xs ys j k d (omega arith)

  get_or-take : (n j : ℕ) (xs : List A) (d : A) → j < n → get_or (take n xs) j d ≡ get_or xs j d
  get_or-take zero j xs d h = absurd (omega arith)
  get_or-take (suc n) j [] d h = refl
  get_or-take (suc n) zero (x ∷ xs) d h = refl
  get_or-take (suc n) (suc j) (x ∷ xs) d h = get_or-take n j xs d (omega arith)

  get_or-drop : (n j : ℕ) (xs : List A) (d : A) → get_or (drop n xs) j d ≡ get_or xs (n + j) d
  get_or-drop zero j xs d = ground arith
  get_or-drop (suc n) j [] d = refl
  get_or-drop (suc n) j (x ∷ xs) d = ground (arith, get_or-drop n j xs d)

  pub length-memmove :
      (xs : List A) (dst src n : ℕ)
      → dst + n ≤ length xs
      → src + n ≤ length xs
      → length (memmove xs dst src n) ≡ length xs
  unfolding memmove
  length-memmove xs dst src n p q = omega (
    arith,
    length-append (take dst xs) (take n (drop src xs) ++ drop (dst + n) xs),
    length-append (take n (drop src xs)) (drop (dst + n) xs),
    length-take dst xs,
    length-take n (drop src xs),
    length-drop src xs,
    length-drop (dst + n) xs,
  )

  -- Elements before the copy stay,
  pub get_or-memmove_before :
      (xs : List A) (dst src n j : ℕ) (d : A)
      → dst + n ≤ length xs
      → j < dst
      → get_or (memmove xs dst src n) j d ≡ get_or xs j d
  unfolding memmove
  get_or-memmove_before xs dst src n j d p h =
      get_or-append_left (take dst xs) _ j d (omega (arith, length-take dst xs))
      ∙ get_or-take dst j xs d h

  -- the copied ones come from `src`,
  pub get_or-memmove_copied :
      (xs : List A) (dst src n i j : ℕ) (d : A)
      → dst + n ≤ length xs
      → src + n ≤ length xs
      → i < n
      → j ≡ dst + i
      → get_or (memmove xs dst src n) j d ≡ get_or xs (src + i) d
  unfolding memmove
  get_or-memmove_copied xs dst src n i j d p q h e =
      get_or-append_right (take dst xs) _ j i d (omega (arith, length-take dst xs))
      ∙ get_or-append_left (take n (drop src xs)) _ i d
          (omega (arith, length-take n (drop src xs), length-drop src xs))
      ∙ get_or-take n i (drop src xs) d h
      ∙ get_or-drop src i xs d
