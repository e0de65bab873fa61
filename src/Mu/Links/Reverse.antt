-- ===== src/Mu/Links/Reverse.antt =====
-- `mu_list_reverse` reverses a list in place.
use toy_tstat.Common.{
  ℕ, zero, suc, ◌<◌, ◌≡◌, ◌≢◌, refl, sym, ◌∙◌, false, List, [], ◌∷◌, All, length, ==_ne, arith,
}
use mathlib.Core.List.{reverse_aux}
use mathlib.Core.Path.{subst}
use toy_tstat.Mu.Links.{Memory, write, init, is_empty, push, pop, reverse_from, reverse}
use toy_tstat.Mu.Links.Chain.{
  Chain, NotIn, IsList, write_here, write_other, Chain-write, Chain-first,
}
use toy_tstat.Mu.Links.Laws.{push_lem, pop_lem, is_empty-nil, is_empty-cons}

-- No element of one list is in the other.
abbrev pub Apart : List ℕ → List ℕ → Type 0
Apart xs ys = All (λ x. NotIn x ys) xs

Chain-frame :
    (h g : Memory) (p : ℕ) (xs : List ℕ)
    → g p ≡ h p
    → All (λ a. g a ≡ h a) xs
    → Chain h p xs
    → Chain g p xs
Chain-frame h g p [] e same c = e ∙ c
Chain-frame h g p (x ∷ xs) e same (at, some_x, c) =
    (e ∙ at, some_x, Chain-frame h g x xs same.0 same.1 c)

frame-All :
    (h g : Memory) (u w : ℕ) (xs : List ℕ)
    → ((a : ℕ) → a ≢ u → a ≢ w → g a ≡ h a)
    → NotIn u xs
    → NotIn w xs
    → All (λ a. g a ≡ h a) xs
frame-All h g u w [] frame out_u out_w = tt
frame-All h g u w (x ∷ xs) frame out_u out_w = (
  frame x (λ e. out_u.0 (sym e)) (λ e. out_w.0 (sym e)),
  frame-All h g u w xs frame out_u.1 out_w.1,
)

-- Writes to two addresses that are none of the list's leave it.
pub IsList-frame :
    {h g : Memory} {p : ℕ} {xs : List ℕ} (u w : ℕ)
    → IsList h p xs
    → NotIn u (p ∷ xs)
    → NotIn w (p ∷ xs)
    → ((a : ℕ) → a ≢ u → a ≢ w → g a ≡ h a)
    → IsList g p xs
IsList-frame {h} {g} {p} {xs} u w v out_u out_w frame = record {
  header = v.header;
  chain =
      Chain-frame h g p xs (frame p (λ e. out_u.0 (sym e)) (λ e. out_w.0 (sym e)))
        (frame-All h g u w xs frame out_u.1 out_w.1) v.chain;
  apart = v.apart;
  distinct = v.distinct;
}

Apart-cons : (x : ℕ) (xs ys : List ℕ) → NotIn x xs → Apart xs ys → Apart xs (x ∷ ys)
Apart-cons x [] ys out apart = tt
Apart-cons x (z ∷ xs) ys out apart =
    (((λ e. out.0 (sym e)), apart.0), Apart-cons x xs ys out.1 apart.1)

reverse_from-nil : (fuel : ℕ) (h : Memory) (p r : ℕ) → h p ≡ 0 → reverse_from fuel h p r ≡ h
unfolding reverse_from
reverse_from-nil zero h p r e = refl
reverse_from-nil (suc fuel) h p r e = rw (is_empty-nil h p e)

reverse_from-cons :
    (fuel : ℕ) (h : Memory) (p r x : ℕ)
    → is_empty h p ≡ false
    → (pop h p).0 ≡ x
    → reverse_from (suc fuel) h p r ≡ reverse_from fuel (push (pop h p).1 r x) p r
unfolding reverse_from
reverse_from-cons fuel h p r x more popped = rw (more, popped) refl

reverse-walk :
    (fuel : ℕ) (h : Memory) (p r : ℕ) (xs ys : List ℕ)
    → IsList h p xs
    → IsList h r ys
    → p ≢ r
    → NotIn p ys
    → NotIn r xs
    → Apart xs ys
    → length xs < fuel
    → let g = reverse_from fuel h p r in
      IsList g r (reverse_aux xs ys) × NotIn p (reverse_aux xs ys)
reverse-walk zero h p r xs ys v w ne out_p out_r apart enough = absurd (omega arith)
reverse-walk (suc fuel) h p r [] ys v w ne out_p out_r apart enough =
    subst (λ g. IsList g r ys × NotIn p ys) (sym (reverse_from-nil (suc fuel) h p r v.chain))
      (w, out_p)
reverse-walk (suc fuel) h p r (x ∷ xs) ys v w ne out_p out_r apart enough =
    let (popped, left, gone, frame) = pop_lem h p x xs v in
    let h1 = (pop h p).1 in
    let w1 : IsList h1 r ys =
      IsList-frame p x w (ne, out_p) ((λ e. out_r.0 (sym e)), apart.0) frame in
    let (pushed, frame') = push_lem h1 r x ys w1 v.chain.1 (λ e. out_r.0 (sym e)) apart.0 in
    let left' : IsList (push h1 r x) p xs =
      IsList-frame r x left ((λ e. ne (sym e)), out_r.1) ((λ e. v.apart.0 (sym e)), v.distinct.0)
        frame' in
    subst (λ g. IsList g r (reverse_aux xs (x ∷ ys)) × NotIn p (reverse_aux xs (x ∷ ys)))
      (sym
        (reverse_from-cons fuel h p r x (is_empty-cons h p x v.header v.chain.0 v.chain.1) popped))
      (reverse-walk fuel (push h1 r x) p r xs (x ∷ ys) left' pushed ne (v.apart.0, out_p) out_r.1
        (Apart-cons x xs ys v.distinct.0 apart.1) (omega arith))

-- `mu_list_reverse` puts the elements into the reverse order; `r` is its local variable, which lies
-- apart from the list.
pub reverse_lem :
    (fuel : ℕ) (h : Memory) (p r : ℕ) (xs : List ℕ)
    → IsList h p xs
    → r ≢ 0
    → NotIn r (p ∷ xs)
    → length xs < fuel
    → IsList (reverse fuel h p r) p (reverse_aux xs [])
unfolding reverse init
reverse_lem fuel h p r xs v some_r out enough = rw (==_ne p 0 v.header) (record {
  header = v.header;
  chain =
      Chain-first (write g p (g r)) r p zs
        (write_here g p (g r) ∙ sym (write_other g p (g r) r out.0))
        (Chain-write g r zs p (g r) (λ e. out.0 (sym e)) walked.1 walked.0.chain);
  apart = walked.1;
  distinct = walked.0.distinct;
})
  where
    h0 : Memory
    h0 = write h r 0

    g : Memory
    g = reverse_from fuel h0 p r

    zs : List ℕ
    zs = reverse_aux xs []

    empty : IsList h0 r []
    empty = record { header = some_r; chain = write_here h r 0; apart = tt; distinct = tt }

    none : (ys : List ℕ) → Apart ys []
    none [] = tt
    none (y ∷ ys) = (tt, none ys)

    walked : IsList g r zs × NotIn p zs
    walked =
        reverse-walk fuel h0 p r xs []
          (IsList-frame r r v out out (λ a e e'. write_other h r 0 a e)) empty (λ e. out.0 (sym e))
          tt out.1 (none xs) enough
