-- ===== src/Mu/Links/Laws.antt =====
-- What `mu_list_push`, `mu_list_pop` and `mu_list_length` do to a list.
use toy_tstat.Common.{
  ℕ, zero, suc, ◌+◌, ◌<◌, ◌≡◌, ◌≢◌, refl, sym, ap, ◌∙◌, Bool, true, false, List, [], ◌∷◌, length,
  ◌==◌, ==_iff, ==_ne, if◌then◌else◌, arith,
}
use mathlib.Core.Path.{subst}
use toy_tstat.Mu.Links.{Memory, write, is_empty, push, pop, length_from}
use toy_tstat.Mu.Links.Chain.{
  Chain, NotIn, IsList, write_here, write_other, Chain-write, Chain-first,
}

-- When `mu_list_is_empty` holds.
pub is_empty-nil : (h : Memory) (p : ℕ) → h p ≡ 0 → is_empty h p ≡ true
unfolding is_empty
is_empty-nil h p e = ap (λ b. if p == 0 then true else b) ((==_iff (h p) 0).1 e) ∙ both (p == 0)
  where
    both : (b : Bool) → (if b then true else true) ≡ true
    both true = refl
    both false = refl

pub is_empty-cons : (h : Memory) (p x : ℕ) → p ≢ 0 → h p ≡ x → x ≢ 0 → is_empty h p ≡ false
unfolding is_empty
is_empty-cons h p x some_p at some_x =
    rw (==_ne p 0 some_p, ==_ne (h p) 0 (λ e. some_x (sym at ∙ e)))

pub push_eq : (h : Memory) (p e : ℕ) → p ≢ 0 → push h p e ≡ write (write h e (h p)) p e
unfolding push
push_eq h p e some_p = rw (==_ne p 0 some_p)

pop_some :
    (h : Memory) (p x : ℕ) → p ≢ 0 → h p ≡ x → x ≢ 0 → pop h p ≡ (x, write (write h p (h x)) x 0)
unfolding pop
pop_some h p x some_p at some_x =
    rw (==_ne p 0 some_p, ==_ne (h p) 0 (λ e. some_x (sym at ∙ e)))
      (ap (λ (y : ℕ). (y, write (write h p (h y)) y 0)) at)

pub pop_none : (h : Memory) (p : ℕ) → h p ≡ 0 → pop h p ≡ (0, h)
unfolding pop
pop_none h p none =
    ap
      (λ b.
        if p == 0 then (0, h) else if b then (0, h) else (h p, write (write h p (h (h p))) (h p) 0))
      ((==_iff (h p) 0).1 none)
    ∙ same (p == 0) (0, h)
  where
    same : (b : Bool) (r : ℕ × Memory) → (if b then r else r) ≡ r
    same true r = refl
    same false r = refl

-- Seen from its first element, a list is the list of the others.
pub tail : {h : Memory} {p x : ℕ} {xs : List ℕ} → IsList h p (x ∷ xs) → IsList h x xs
tail v = record {
  header = v.chain.1;
  chain = v.chain.2;
  apart = v.distinct.0;
  distinct = v.distinct.1;
}

-- A new element goes in front; no other field changes.
pub push_lem :
    (h : Memory) (p e : ℕ) (xs : List ℕ)
    → IsList h p xs
    → e ≢ 0
    → e ≢ p
    → NotIn e xs
    → IsList (push h p e) p (e ∷ xs) × ((a : ℕ) → a ≢ p → a ≢ e → push h p e a ≡ h a)
push_lem h p e xs v some_e other out =
    subst (λ g. IsList g p (e ∷ xs) × ((a : ℕ) → a ≢ p → a ≢ e → g a ≡ h a))
      (sym (push_eq h p e v.header))
      (
        record {
          header = v.header;
          chain = (
            write_here h1 p e,
            some_e,
            Chain-write h1 e xs p e (λ q. other (sym q)) v.apart from_e,
          );
          apart = ((λ q. other (sym q)), v.apart);
          distinct = (out, v.distinct);
        },
        λ a ne_p ne_e. write_other h1 p e a ne_p ∙ write_other h e (h p) a ne_e,
      )
  where
    h1 : Memory
    h1 = write h e (h p)

    from_e : Chain h1 e xs
    from_e =
        Chain-first h1 p e xs
          (write_here h e (h p) ∙ sym (write_other h e (h p) p (λ q. other (sym q))))
          (Chain-write h p xs e (h p) other out v.chain)

-- The first element is taken out, and its own field is NULL; no other field changes.
pub pop_lem :
    (h : Memory) (p x : ℕ) (xs : List ℕ)
    → IsList h p (x ∷ xs)
    → ((pop h p).0 ≡ x)
      × IsList (pop h p).1 p xs
      × ((pop h p).1 x ≡ 0)
      × ((a : ℕ) → a ≢ p → a ≢ x → (pop h p).1 a ≡ h a)
pop_lem h p x xs v =
    subst (λ r. (r.0 ≡ x) × IsList r.1 p xs × (r.1 x ≡ 0) × ((a : ℕ) → a ≢ p → a ≢ x → r.1 a ≡ h a))
      (sym (pop_some h p x v.header v.chain.0 v.chain.1))
      (
        refl,
        record {
          header = v.header;
          chain = Chain-write h1 p xs x 0 (λ q. v.apart.0 (sym q)) v.distinct.0 from_p;
          apart = v.apart.1;
          distinct = v.distinct.1;
        },
        write_here h1 x 0,
        λ a ne_p ne_x. write_other h1 x 0 a ne_x ∙ write_other h p (h x) a ne_p,
      )
  where
    h1 : Memory
    h1 = write h p (h x)

    from_p : Chain h1 p xs
    from_p =
        Chain-first h1 x p xs
          (write_here h p (h x) ∙ sym (write_other h p (h x) x (λ q. v.apart.0 (sym q))))
          (Chain-write h x xs p (h x) v.apart.0 v.apart.1 v.chain.2)

-- `mu_list_length` counts the elements, on fuel for one round more.
pub length_from-lem :
    (fuel : ℕ) (h : Memory) (p count : ℕ) (xs : List ℕ)
    → IsList h p xs
    → length xs < fuel
    → length_from fuel h p count ≡ count + length xs
unfolding length_from
length_from-lem zero h p count xs v enough = absurd (omega arith)
length_from-lem (suc fuel) h p count [] v enough =
    rw (==_ne p 0 v.header, (==_iff (h p) 0).1 v.chain) (omega arith)
length_from-lem (suc fuel) h p count (x ∷ xs) v enough =
    rw (==_ne p 0 v.header, ==_ne (h p) 0 (λ e. v.chain.1 (sym v.chain.0 ∙ e)))
      (ap (λ q. length_from fuel h q (count + 1)) v.chain.0
        ∙ length_from-lem fuel h x (count + 1) xs (tail v) (omega arith)
        ∙ omega arith)
