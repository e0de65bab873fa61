-- ===== src/Mu/Links/Chain.antt =====
-- Which elements a list in the memory has, and that a write elsewhere leaves them.
use toy_tstat.Common.{
  ℕ, ◌≡◌, ◌≢◌, sym, ap, ◌∙◌, List, [], ◌∷◌, ◌++◌, All, ==_ne, ==_self, if◌then◌else◌,
}
use toy_tstat.Mu.Links.{Memory, write}

-- From `p` on, the `next` fields lead through `xs` to NULL.
abbrev pub Chain : Memory → ℕ → List ℕ → Type 0
Chain h p [] = h p ≡ 0
Chain h p (x ∷ xs) = (h p ≡ x) × (x ≢ 0) × Chain h x xs

abbrev pub NotIn : ℕ → List ℕ → Type 0
NotIn a xs = All (λ x. a ≢ x) xs

abbrev pub NoDup : List ℕ → Type 0
NoDup [] = Unit
NoDup (x ∷ xs) = NotIn x xs × NoDup xs

-- The header `p`, which is no element, and distinct elements `xs`.
pub record IsList (h : Memory) (p : ℕ) (xs : List ℕ) : Type 0 where
  pub header : p ≢ 0
  pub chain : Chain h p xs
  pub apart : NotIn p xs
  pub distinct : NoDup xs

pub write_here : (h : Memory) (p v : ℕ) → write h p v p ≡ v
unfolding write
write_here h p v = ap (λ b. if b then v else h p) (==_self p)

pub write_other : (h : Memory) (p v a : ℕ) → a ≢ p → write h p v a ≡ h a
unfolding write
write_other h p v a ne = ap (λ b. if b then v else h a) (==_ne a p ne)

-- A write to an address that is none of `p` and `xs` leaves the chain.
pub Chain-write :
    (h : Memory) (p : ℕ) (xs : List ℕ) (a v : ℕ)
    → a ≢ p
    → NotIn a xs
    → Chain h p xs
    → Chain (write h a v) p xs
Chain-write h p [] a v ne out c = write_other h a v p (λ e. ne (sym e)) ∙ c
Chain-write h p (x ∷ xs) a v ne out (at, some_x, c) =
    (write_other h a v p (λ e. ne (sym e)) ∙ at, some_x, Chain-write h x xs a v out.0 out.1 c)

-- A chain depends on the first field only by its value.
pub Chain-first : (h : Memory) (p q : ℕ) (xs : List ℕ) → h q ≡ h p → Chain h p xs → Chain h q xs
Chain-first h p q [] e c = e ∙ c
Chain-first h p q (x ∷ xs) e (at, some_x, c) = (e ∙ at, some_x, c)

pub NotIn-snoc : (a : ℕ) (xs : List ℕ) (e : ℕ) → NotIn a xs → a ≢ e → NotIn a (xs ++ e ∷ [])
NotIn-snoc a [] e out ne = (ne, tt)
NotIn-snoc a (x ∷ xs) e out ne = (out.0, NotIn-snoc a xs e out.1 ne)

pub NoDup-snoc : (xs : List ℕ) (e : ℕ) → NoDup xs → NotIn e xs → NoDup (xs ++ e ∷ [])
NoDup-snoc [] e d out = (tt, tt)
NoDup-snoc (x ∷ xs) e d out =
    (NotIn-snoc x xs e d.0 (λ q. out.0 (sym q)), NoDup-snoc xs e d.1 out.1)
