-- ===== src/Mu/Str/Url/Pieces.antt =====
-- What the searches and tests that the parser of URLs is made of answer, as lists of bytes.
use toy_tstat.Common.{
  ℕ, zero, suc, ◌+◌, ◌≡◌, ◌<◌, ◌≤◌, refl, sym, ap, ◌∙◌, inl, inr, Bool, true, false, ltb→lt, lt→ltb,
  Option, none, some, ltb, ◌==◌, ==_ne, [], ◌∷◌, if◌then◌else◌, drop, length, length-drop,
  Bool-cases, arith,
}
use toy_tstat.Common.Ints.{pos}
use toy_tstat.Common.Chars.{Bytes}
use toy_tstat.Mu.Str.{
  not_found, init, init_cstr, has_prefix_cstr, prefix, same_bytes, slice, slice_between,
  slice_index, matched, match_from,
}
use toy_tstat.Mu.Str.Url.{first_not}

module _ (predicate : ℕ → Bool) where
  -- The bytes before the first that does not satisfy the predicate, and those from it on.
  unfoldable pub leading : Bytes → Bytes
  leading [] = []
  leading (c ∷ cs) = let rest = leading cs in if predicate c then c ∷ rest else []

  unfoldable pub behind : Bytes → Bytes
  behind [] = []
  behind (c ∷ cs) = let rest = behind cs in if predicate c then rest else c ∷ cs

  pub drop-leading : (cs : Bytes) → drop (length (leading cs)) cs ≡ behind cs
  unfolding leading behind
  drop-leading [] = refl
  drop-leading (c ∷ cs) = elim (Bool-cases (predicate c)) [
    | inl e ↦ rw e (drop-leading cs)
    | inr e ↦ rw e refl
  ]

  length-leading : (cs : Bytes) → length (leading cs) ≤ length cs
  unfolding leading
  length-leading [] = omega arith
  length-leading (c ∷ cs) = ground (arith, length-leading cs)

  match_from-leading :
      (cs : Bytes) (idx len : ℕ)
      → len ≡ idx + length cs
      → len < not_found
      → (if match_from predicate false cs (length cs) idx == not_found
          then len
          else match_from predicate false cs (length cs) idx)
        ≡ idx + length (leading cs)
  unfolding match_from leading
  match_from-leading [] idx len same h = same
  match_from-leading (c ∷ cs) idx len same h = elim (Bool-cases (predicate c)) [
    | inl e ↦ rw e (match_from-leading cs (idx + 1) len (omega arith) h ∙ omega arith)
    | inr e ↦ rw (e, ==_ne idx not_found (λ q. omega (arith, q))) (omega arith)
  ]

  pub first_not-leading :
      (cs : Bytes)
      → length cs < not_found
      → first_not predicate (init_cstr cs) ≡ length (leading cs)
  unfolding first_not matched init_cstr init
  first_not-leading cs h = match_from-leading cs 0 (length cs) (omega arith) h ∙ omega arith

-- What stands behind a prefix, if it is one.
unfoldable pub strip : Bytes → Bytes → Option Bytes
strip [] cs = some cs
strip (p ∷ ps) [] = none
strip (p ∷ ps) (c ∷ cs) = let rest = strip ps cs in if c == p then rest else none

abbrev pub is_some : Option Bytes → Bool
is_some none = false
is_some (some cs) = true

same_bytes-le : (cs : Bytes) (m : ℕ) (ps : Bytes) (n : ℕ) → same_bytes cs m ps n ≤ n
unfolding same_bytes
same_bytes-le cs zero ps n = omega arith
same_bytes-le cs (suc m) ps zero = omega arith
same_bytes-le cs (suc m) ps (suc n) = ground (arith, same_bytes-le (drop 1 cs) m (drop 1 ps) n)

strip_short : (ps cs : Bytes) → length cs < length ps → strip ps cs ≡ none
unfolding strip
strip_short [] cs h = absurd (omega arith)
strip_short (p ∷ ps) [] h = refl
strip_short (p ∷ ps) (c ∷ cs) h = rw (strip_short ps cs (omega arith)) (ground arith)

zero_not : (n : ℕ) → (0 == suc n) ≡ false
zero_not n = ground arith

pub suc_not : (n : ℕ) → (suc n == 0) ≡ false
suc_not n = ground arith

suc_same : (a b : ℕ) → (suc a == suc b) ≡ (a == b)
suc_same a b = ground arith

same_bytes-strip :
    (ps cs : Bytes)
    → length ps ≤ length cs
    → (same_bytes cs (length cs) ps (length ps) == length ps) ≡ is_some (strip ps cs)
unfolding same_bytes strip
same_bytes-strip [] [] h = refl
same_bytes-strip [] (c ∷ cs) h = refl
same_bytes-strip (p ∷ ps) [] h = absurd (omega arith)
same_bytes-strip (p ∷ ps) (c ∷ cs) h = elim (Bool-cases (c == p)) [
  | inl e ↦ rw e (suc_same _ _ ∙ same_bytes-strip ps cs (omega arith))
  | inr e ↦ rw e (zero_not _)
]

pub has_prefix_cstr-strip :
    (ps cs : Bytes) → has_prefix_cstr (init_cstr cs) ps ≡ is_some (strip ps cs)
unfolding has_prefix_cstr prefix init_cstr init strip
has_prefix_cstr-strip [] cs = refl
has_prefix_cstr-strip (p ∷ ps) cs = elim (Bool-cases (ltb (length cs) (length (p ∷ ps)))) [
  | inl e ↦
      let short : is_some (strip (p ∷ ps) cs) ≡ false =
        ap is_some (strip_short (p ∷ ps) cs (ltb→lt _ _ e)) in
      rw (suc_not (length ps), e) (sym short)
  | inr e ↦ rw (suc_not (length ps), e) (same_bytes-strip (p ∷ ps) cs (ground arith))
]

pub drop-strip :
    (ps cs rest : Bytes)
    → strip ps cs ≡ some rest
    → (drop (length ps) cs ≡ rest) × (length ps ≤ length cs)
unfolding strip
drop-strip [] cs rest e = (ground arith, omega arith)
drop-strip (p ∷ ps) [] rest e = cc
drop-strip (p ∷ ps) (c ∷ cs) rest e = elim (Bool-cases (c == p)) [
  | inl q ↦ let (d, h) = drop-strip ps cs rest (rw q at e) in (d, omega arith)
  | inr q ↦ ground (arith, e)
]

pub slice_behind :
    (cs : Bytes) (n : ℕ)
    → n ≤ length cs
    → length cs < not_found
    → slice (init_cstr cs) (pos n) (pos not_found) ≡ some (init_cstr (drop n cs))
unfolding slice slice_between slice_index init_cstr init
slice_behind cs n h small =
    let inside : ltb (length cs) n ≡ false = ground arith in
    let whole : ltb (length cs) not_found ≡ true = lt→ltb _ _ small in
    let other : (n == not_found) ≡ false = ==_ne n not_found (λ q. omega (arith, q)) in
    let forward : ltb (length cs + 0) (n + 0) ≡ false = ground arith in
    rw (inside, other, whole, forward, length-drop n cs) refl
