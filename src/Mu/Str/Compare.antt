-- ===== src/Mu/Str/Compare.antt =====
-- What the comparisons of mu_str.c answer, for strings that lie in their bytes.
use toy_tstat.Common.{
  ℕ, zero, suc, ◌≤◌, ◌≡◌, refl, sym, ap, ap₂, ◌∙◌, ◌↔◌, inl, inr, true, [], ◌∷◌, ◌++◌, ltb, ◌==◌,
  ==_iff, if◌then◌else◌, length, length-take, take, drop, get_or, Bool-cases, arith,
}
use toy_tstat.Common.Ints.{ℤ, pos}
use toy_tstat.Common.Chars.{Bytes}
use toy_tstat.Mu.Str.{
  Str, same_bytes, prefix, has_prefix, compare_from, str_compare_aux, compare, minus,
}

abbrev pub text : Str → Bytes
text s = take s.len s.bytes

abbrev pub IsValid : Str → Type 0
IsValid s = s.len ≤ length s.bytes

-- As many bytes are the same as there are in `s2` exactly if it begins `s1`.
same_bytes_prefix :
    (s1 : Bytes) (n1 : ℕ) (s2 : Bytes) (n2 : ℕ)
    → n1 ≤ length s1
    → n2 ≤ length s2
    → same_bytes s1 n1 s2 n2 ≡ n2
    → (rest : Bytes) × (take n1 s1 ≡ take n2 s2 ++ rest)
unfolding same_bytes
same_bytes_prefix s1 n1 s2 zero h1 h2 e = (take n1 s1, refl)
same_bytes_prefix s1 zero s2 (suc n2) h1 h2 e = absurd (omega (arith, e))
same_bytes_prefix [] (suc n1) s2 (suc n2) h1 h2 e = absurd (omega arith)
same_bytes_prefix (a ∷ s1) (suc n1) [] (suc n2) h1 h2 e = absurd (omega arith)
same_bytes_prefix (a ∷ s1) (suc n1) (b ∷ s2) (suc n2) h1 h2 e = elim (Bool-cases (a == b)) [
  | inl q ↦
      let deeper : suc (same_bytes s1 n1 s2 n2) ≡ suc n2 = rw q at e in
      let (rest, p) =
        same_bytes_prefix s1 n1 s2 n2 (omega arith) (omega arith) (omega (arith, deeper)) in
      (rest, ap₂ ◌∷◌ ((==_iff a b).0 q) p)
  | inr q ↦ let bad : 0 ≡ suc n2 = rw q at e in absurd (omega (arith, bad))
]

prefix_same_bytes :
    (s1 : Bytes) (n1 : ℕ) (s2 : Bytes) (n2 : ℕ) (rest : Bytes)
    → n1 ≤ length s1
    → n2 ≤ length s2
    → take n1 s1 ≡ take n2 s2 ++ rest
    → same_bytes s1 n1 s2 n2 ≡ n2
unfolding same_bytes
prefix_same_bytes s1 zero s2 zero rest h1 h2 e = refl
prefix_same_bytes s1 (suc n1) s2 zero rest h1 h2 e = refl
prefix_same_bytes s1 n1 [] (suc n2) rest h1 h2 e = absurd (omega arith)
prefix_same_bytes s1 zero (b ∷ s2) (suc n2) rest h1 h2 e = absurd (omega (arith, ap length e))
prefix_same_bytes [] (suc n1) (b ∷ s2) (suc n2) rest h1 h2 e = absurd (omega arith)
prefix_same_bytes (a ∷ s1) (suc n1) (b ∷ s2) (suc n2) rest h1 h2 e =
    let head : a ≡ b = ap (λ xs. get_or xs 0 0) e in
    rw ((==_iff a b).1 head)
      (ap suc (prefix_same_bytes s1 n1 s2 n2 rest (omega arith) (omega arith) (ap (drop 1) e)))

same_bytes_zero : (s1 : Bytes) (n1 : ℕ) (s2 : Bytes) → same_bytes s1 n1 s2 0 ≡ 0
unfolding same_bytes
same_bytes_zero s1 zero s2 = refl
same_bytes_zero s1 (suc n1) s2 = refl

same_bytes-le : (s1 : Bytes) (n1 : ℕ) (s2 : Bytes) (n2 : ℕ) → same_bytes s1 n1 s2 n2 ≤ n1
unfolding same_bytes
same_bytes-le s1 zero s2 n2 = omega arith
same_bytes-le s1 (suc n1) s2 zero = omega arith
same_bytes-le s1 (suc n1) s2 (suc n2) = ground (arith, same_bytes-le (drop 1 s1) n1 (drop 1 s2) n2)

prefix_to :
    (s1 : Bytes) (n1 : ℕ) (s2 : Bytes) (n2 : ℕ)
    → prefix s1 n1 s2 n2 ≡ true
    → same_bytes s1 n1 s2 n2 ≡ n2
unfolding prefix
prefix_to s1 n1 s2 zero e = same_bytes_zero s1 n1 s2
prefix_to s1 n1 s2 (suc n2) e = ground arith

prefix_from :
    (s1 : Bytes) (n1 : ℕ) (s2 : Bytes) (n2 : ℕ)
    → same_bytes s1 n1 s2 n2 ≡ n2
    → prefix s1 n1 s2 n2 ≡ true
unfolding prefix
prefix_from s1 n1 s2 n2 e = ground (arith, same_bytes-le s1 n1 s2 n2)

-- `mu_str_has_prefix` answers true exactly if the second string begins the first.
pub has_prefix_iff :
    (s1 s2 : Str)
    → IsValid s1
    → IsValid s2
    → (has_prefix s1 s2 ≡ true) ↔ ((rest : Bytes) × (text s1 ≡ text s2 ++ rest))
unfolding has_prefix
has_prefix_iff s1 s2 v1 v2 = (
  (λ e.
      same_bytes_prefix s1.bytes s1.len s2.bytes s2.len v1 v2
        (prefix_to s1.bytes s1.len s2.bytes s2.len e)),
  (λ (rest, e).
      prefix_from s1.bytes s1.len s2.bytes s2.len
        (prefix_same_bytes s1.bytes s1.len s2.bytes s2.len rest v1 v2 e)),
)

minus_zero : (a b : ℕ) → (minus a b ≡ pos 0) ↔ (a ≡ b)
minus_zero a b = ((λ e. ground arith), (λ e. ground arith))

compare_from_zero :
    (b1 b2 : Bytes) (n : ℕ) (last : ℤ)
    → n ≤ length b1
    → n ≤ length b2
    → (compare_from b1 b2 n last ≡ pos 0) ↔ ((take n b1 ≡ take n b2) × (last ≡ pos 0))
unfolding compare_from
compare_from_zero b1 b2 zero last h1 h2 = ((λ e. (refl, e)), λ (p, e). e)
compare_from_zero [] b2 (suc n) last h1 h2 = absurd (omega arith)
compare_from_zero (x ∷ b1) [] (suc n) last h1 h2 = absurd (omega arith)
compare_from_zero (x ∷ b1) (y ∷ b2) (suc n) last h1 h2 = elim (Bool-cases (x == y)) [
  | inl q ↦
      let ih = compare_from_zero b1 b2 n last (omega arith) (omega arith) in
      rw q (
        (λ e. let (p, l) = ih.0 e in (ap₂ ◌∷◌ ((==_iff x y).0 q) p, l)),
        λ (p, l). ih.1 (ap (drop 1) p, l),
      )
  | inr q ↦ rw q (
    (λ e. let bad = (minus_zero x y).0 e in ground arith),
    λ (p, l). let bad : x ≡ y = ap (λ xs. get_or xs 0 0) p in ground arith,
  )
]

-- `mu_str_compare` answers 0 exactly for equal strings.
pub compare_zero :
    (s1 s2 : Str) → IsValid s1 → IsValid s2 → (compare s1 s2 ≡ pos 0) ↔ (text s1 ≡ text s2)
unfolding compare str_compare_aux
compare_zero s1 s2 v1 v2 =
    let n = if ltb s1.len s2.len then s1.len else s2.len in
    let (to, from) =
      compare_from_zero s1.bytes s2.bytes n (minus s1.len s2.len) (ground arith) (ground arith) in
    (
      (λ e.
          let (p, l) = to e in
          let q : s1.len ≡ s2.len = (minus_zero s1.len s2.len).0 l in
          let short : n ≡ s1.len = ground arith in
          ap (λ k. take k s1.bytes) (sym short) ∙ p ∙ ap (λ k. take k s2.bytes) (short ∙ q)),
      (λ e.
          let q : s1.len ≡ s2.len =
            omega (arith, ap length e, length-take s1.len s1.bytes, length-take s2.len s2.bytes) in
          let short : n ≡ s1.len = ground arith in
          from (
            ap (λ k. take k s1.bytes) short ∙ e ∙ ap (λ k. take k s2.bytes) (sym (short ∙ q)),
            (minus_zero s1.len s2.len).1 q,
          )),
    )
