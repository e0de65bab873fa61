-- ===== src/Mu/Str/Find/First.antt =====
-- `mu_str_find` finds the first place of a needle.
use toy_tstat.Common.{
  ℕ, zero, suc, ◌+◌, ◌-◌, ◌≤◌, ◌<◌, ◌≡◌, refl, sym, ap, ap₂, ◌∙◌, inl, inr, ◌⊎◌, Bool, true, false,
  Option, some, [], ◌∷◌, take, drop, length, ◌==◌, ==_iff, ==_ne, ltb, if◌then◌else◌, get_or,
  Bool-cases, arith, ℕ_discrete,
}
use mathlib.Core.Path.{subst}
use toy_tstat.Common.Chars.{Bytes}
use toy_tstat.Mu.Str.{Str, not_found}
use toy_tstat.Mu.Str.Compare.{IsValid}
use toy_tstat.Mu.Str.Find.{int_max, matches_at, find_from, find_aux, find}

-- The needle stands in the haystack at `i`.
abbrev pub StandsAt : Bytes → Bytes → ℕ → ℕ → Type 0
StandsAt haystack needle len i = take len (drop i haystack) ≡ take len needle

take-drop_next :
    (xs : Bytes) (i n : ℕ)
    → i < length xs
    → take (suc n) (drop i xs) ≡ get_or xs i 0 ∷ take n (drop (suc i) xs)
take-drop_next [] i n h = absurd (omega arith)
take-drop_next (x ∷ xs) zero n h = refl
take-drop_next (x ∷ xs) (suc i) n h = take-drop_next xs i n (omega arith)

take-drop_cons :
    (xs : Bytes) (i n : ℕ)
    → i < length xs
    → take (suc n) (drop i xs) ≡ get_or xs i 0 ∷ take n (drop (i + 1) xs)
take-drop_cons xs i n h =
    let next : suc i ≡ i + 1 = omega arith in
    take-drop_next xs i n h ∙ ap (λ k. get_or xs i 0 ∷ take n (drop k xs)) next

-- While `j` stays an `int`, the comparison has an answer.
Compared : Option Bool → Type 0 → Type 0
Compared r Same = ((r ≡ some true) × Same) ⊎ ((r ≡ some false) × ¬ Same)

matches_at-Compared :
    (haystack : Bytes) (i : ℕ) (needle : Bytes) (j n : ℕ)
    → i + j + n ≤ length haystack
    → j + n ≤ length needle
    → j + n ≤ int_max
    → Compared
        (matches_at haystack i needle j n)
        (take n (drop (i + j) haystack) ≡ take n (drop j needle))
unfolding matches_at Compared
matches_at-Compared haystack i needle j zero h h' k = inl (refl, refl)
matches_at-Compared haystack i needle j (suc n) h h' k =
    let from : i + (j + 1) ≡ i + j + 1 = omega arith in
    let on : (j == int_max) ≡ false = ==_ne j int_max (omega arith) in
    let first = take-drop_cons haystack (i + j) n (omega arith) in
    let second = take-drop_cons needle j n (omega arith) in
    elim (Bool-cases (get_or haystack (i + j) 0 == get_or needle j 0)) [
      | inl e ↦
          let later =
            subst
              (λ p.
                Compared (matches_at haystack i needle (j + 1) n)
                  (take n (drop p haystack) ≡ take n (drop (j + 1) needle)))
              from
              (matches_at-Compared haystack i needle (j + 1) n (omega arith) (omega arith)
                (omega arith)) in
          rw (e, on, first, second)
            (elim later [
              | inl (m, q) ↦ inl (m, ap₂ ◌∷◌ ((==_iff _ _).0 e) q)
              | inr (m, ne) ↦ inr (m, λ p. ne (ap (drop 1) p))
            ])
      | inr e ↦
          rw (e, first, second)
            (inr (
              refl,
              λ p.
                  let same = (==_iff _ _).1 (ap (λ xs. get_or xs 0 0) p) in
                  let bad = sym same ∙ e in cc,
            ))
    ]

stands-Compared :
    (haystack : Bytes) (i : ℕ) (needle : Bytes) (len : ℕ)
    → i + len ≤ length haystack
    → len ≤ length needle
    → len ≤ int_max
    → Compared (matches_at haystack i needle 0 len) (StandsAt haystack needle len i)
stands-Compared haystack i needle len h h' k =
    let at : i + 0 ≡ i = omega arith in
    subst
      (λ p.
        Compared (matches_at haystack i needle 0 len)
          (take len (drop p haystack) ≡ take len needle))
      at (matches_at-Compared haystack i needle 0 len (omega arith) (omega arith) (omega arith))

-- What a search over `n` places from `i` on answers.
abbrev pub Found : Bytes → Bytes → ℕ → Bool → ℕ → ℕ → ℕ → Type 0
Found haystack needle len skip i n r =
    ((r ≡ not_found) × ((k : ℕ) → i ≤ k → k < i + n → ¬ (StandsAt haystack needle len k)))
    ⊎ ((at : ℕ) × (r ≡ (if skip then at + len else at))
        × (at < i + n)
        × StandsAt haystack needle len at
        × ((k : ℕ) → i ≤ k → k < at → ¬ (StandsAt haystack needle len k)))

earlier :
    (haystack needle : Bytes) (len i end : ℕ)
    → ¬ (StandsAt haystack needle len i)
    → ((k : ℕ) → i + 1 ≤ k → k < end → ¬ (StandsAt haystack needle len k))
    → (k : ℕ) → i ≤ k
    → k < end
    → ¬ (StandsAt haystack needle len k)
earlier haystack needle len i end none_here never k p q = elim (ℕ_discrete i k) [
  | yes e ↦ subst (λ x. ¬ (StandsAt haystack needle len x)) e none_here
  | no ne ↦ never k (omega arith) q
]

-- A place that does not hold the needle does not matter.
Found-later :
    (haystack needle : Bytes) (len : ℕ) (skip : Bool) (i n r : ℕ)
    → ¬ (StandsAt haystack needle len i)
    → Found haystack needle len skip (i + 1) n r
    → Found haystack needle len skip i (suc n) r
Found-later haystack needle len skip i n r none_here (inl (e, never)) =
    inl (e, earlier haystack needle len i (i + suc n) none_here (λ k p q. never k p (omega arith)))
Found-later haystack needle len skip i n r none_here (inr (at, e, in_range, st, never)) =
    inr (at, e, omega arith, st, earlier haystack needle len i at none_here never)

find_from-Found :
    (haystack needle : Bytes) (len : ℕ) (skip : Bool) (i n : ℕ)
    → i + n + len ≤ length haystack + 1
    → len ≤ length needle
    → 0 < len
    → i + n + len ≤ int_max + 1
    → (r : ℕ) × (find_from haystack needle len skip i n ≡ some r)
      × Found haystack needle len skip i n r
unfolding find_from Compared
find_from-Found haystack needle len skip i zero h h' p k =
    (not_found, refl, inl (refl, λ k p q. absurd (omega arith)))
find_from-Found haystack needle len skip i (suc n) h h' p k =
    let on : (i == int_max) ≡ false = ==_ne i int_max (omega arith) in
    let (r, e, found) =
      find_from-Found haystack needle len skip (i + 1) n (omega arith) h' p (omega arith) in
    let here = stands-Compared haystack i needle len (omega arith) h' (omega arith) in
    elim here [
      | inl (m, st) ↦ (
        if skip then i + len else i,
        rw (find_from, m) refl,
        inr (i, refl, omega arith, st, λ k p q. absurd (omega arith)),
      )
      | inr (m, ne) ↦
          (r, rw (find_from, m, on) e, Found-later haystack needle len skip i n r ne found)
    ]

-- For a needle that is not empty nor longer than the haystack, both strings in their bytes, and a haystack
-- whose length fits an `int`: no counter overflows, and the answer is MU_STR_NOT_FOUND, and the needle
-- stands nowhere in the haystack, or it is the first place where it stands, or the place behind it there,
-- as asked.
pub find_first :
    (haystack needle : Str) (skip : Bool)
    → IsValid haystack
    → IsValid needle
    → 0 < needle.len
    → needle.len ≤ haystack.len
    → haystack.len ≤ int_max
    → (r : ℕ) × (find haystack needle skip ≡ some r)
      × Found haystack.bytes needle.bytes needle.len skip 0 (haystack.len - needle.len + 1) r
unfolding find find_aux
find_first haystack needle skip v w some_len short fits =
    let places = haystack.len - needle.len + 1 in
    let (r, e, found) =
      find_from-Found haystack.bytes needle.bytes needle.len skip 0 places (omega arith) w some_len
        (omega arith) in
    let nonempty : (needle.len == 0) ≡ false = ==_ne needle.len 0 (omega arith) in
    let room : ltb haystack.len needle.len ≡ false = ground arith in
    (r, rw (nonempty, room) e, found)
