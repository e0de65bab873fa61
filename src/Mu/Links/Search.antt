-- ===== src/Mu/Links/Search.antt =====
-- What `mu_list_find` and `mu_list_delete` find in a list and take out of it.
use toy_tstat.Common.{
  ℕ, zero, suc, ◌<◌, ◌≡◌, ◌≢◌, refl, sym, ap, ◌∙◌, inl, inr, Bool, true, false, ◌||◌, List, [], ◌∷◌,
  length, ◌==◌, ==_iff, ==_ne, if◌then◌else◌, Bool-cases, arith,
}
use mathlib.Core.Path.{subst}
use toy_tstat.Mu.Links.{Memory, traverse, find_aux, delete_aux, find, delete, pop}
use toy_tstat.Mu.Links.Chain.{NotIn, IsList}
use toy_tstat.Mu.Links.Laws.{pop_lem, tail}

unfoldable pub member : ℕ → List ℕ → Bool
member e [] = false
member e (x ∷ xs) = x == e || member e xs

-- The elements but for the first `e`.
unfoldable pub remove : ℕ → List ℕ → List ℕ
remove e [] = []
remove e (x ∷ xs) = if x == e then xs else x ∷ remove e xs

pub NotIn-remove : (a e : ℕ) (xs : List ℕ) → NotIn a xs → NotIn a (remove e xs)
unfolding remove
NotIn-remove a e [] out = tt
NotIn-remove a e (x ∷ xs) out = elim (Bool-cases (x == e)) [
  | inl q ↦ rw q out.1
  | inr q ↦ rw q (out.0, NotIn-remove a e xs out.1)
]

-- One round of the walk, where nothing is found.
traverse-next :
    (fn : ℕ → Memory → ℕ × Memory) (fuel : ℕ) (h : Memory) (p : ℕ)
    → p ≢ 0
    → fn p h ≡ (0, h)
    → traverse fn (suc fuel) h p ≡ traverse fn fuel h (h p)
unfolding traverse
traverse-next fn fuel h p some_p none = rw (none, ==_ne p 0 some_p)

traverse-null :
    (fn : ℕ → Memory → ℕ × Memory) (fuel : ℕ) (h : Memory) → traverse fn fuel h 0 ≡ (0, h)
unfolding traverse
traverse-null fn zero h = refl
traverse-null fn (suc fuel) h = refl

-- One round of the walk, where something is found.
traverse-found :
    (fn : ℕ → Memory → ℕ × Memory) (fuel : ℕ) (h : Memory) (p x : ℕ) (g : Memory)
    → p ≢ 0
    → x ≢ 0
    → fn p h ≡ (x, g)
    → traverse fn (suc fuel) h p ≡ (x, g)
unfolding traverse
traverse-found fn fuel h p x g some_p some_x found = rw (found, ==_ne p 0 some_p, ==_ne x 0 some_x)

find_aux_yes : (e p : ℕ) (h : Memory) → h p ≡ e → find_aux e p h ≡ (e, h)
unfolding find_aux
find_aux_yes e p h at = rw ((==_iff (h p) e).1 at)

find_aux_no : (e p : ℕ) (h : Memory) → h p ≢ e → find_aux e p h ≡ (0, h)
unfolding find_aux
find_aux_no e p h ne = rw (==_ne (h p) e ne)

delete_aux_yes : (e p : ℕ) (h : Memory) → h p ≡ e → delete_aux e p h ≡ pop h p
unfolding delete_aux
delete_aux_yes e p h at = rw ((==_iff (h p) e).1 at)

delete_aux_no : (e p : ℕ) (h : Memory) → h p ≢ e → delete_aux e p h ≡ (0, h)
unfolding delete_aux
delete_aux_no e p h ne = rw (==_ne (h p) e ne)

-- The first element is not the one that is looked for.
passed : {m x e : ℕ} → m ≡ x → (x == e) ≡ false → m ≢ e
passed {x = x} {e = e} at q r = let bad : true ≡ false = sym ((==_iff x e).1 (sym at ∙ r)) ∙ q in cc

module _ {e : ℕ} (some_e : e ≢ 0) where
  find-walk :
      (fuel : ℕ) (h : Memory) (p : ℕ) (xs : List ℕ)
      → IsList h p xs
      → length xs < fuel
      → traverse (find_aux e) fuel h p ≡ (if member e xs then e else 0, h)
  unfolding member
  find-walk zero h p xs v enough = absurd (omega arith)
  find-walk (suc fuel) h p [] v enough =
      traverse-next (find_aux e) fuel h p v.header
        (find_aux_no e p h (λ q. some_e (sym q ∙ v.chain)))
      ∙ ap (traverse (find_aux e) fuel h) v.chain
      ∙ traverse-null (find_aux e) fuel h
  find-walk (suc fuel) h p (x ∷ xs) v enough = elim (Bool-cases (x == e)) [
    | inl q ↦ rw q (
        traverse-found (find_aux e) fuel h p e h v.header some_e
          (find_aux_yes e p h (v.chain.0 ∙ (==_iff x e).0 q)))
    | inr q ↦ rw q (
        traverse-next (find_aux e) fuel h p v.header (find_aux_no e p h (passed v.chain.0 q))
        ∙ ap (traverse (find_aux e) fuel h) v.chain.0
        ∙ find-walk fuel h x xs (tail v) (omega arith))
  ]

  -- `mu_list_find` answers the element exactly if it is in the list.
  pub find_lem :
      (fuel : ℕ) (h : Memory) (p : ℕ) (xs : List ℕ)
      → IsList h p xs
      → length xs < fuel
      → find fuel h p e ≡ (if member e xs then e else 0, h)
  unfolding find
  find_lem fuel h p xs v enough = find-walk fuel h p xs v enough

  -- What the walk of `mu_list_delete` answers, and what it leaves.
  abbrev Deleted : Memory → ℕ → List ℕ → ℕ × Memory → Type 0
  Deleted h p xs (r, g) =
      (r ≡ (if member e xs then e else 0))
      × IsList g p (remove e xs)
      × ((a : ℕ) → NotIn a (p ∷ xs) → g a ≡ h a)

  Deleted-first :
      {h : Memory} {p x : ℕ} {xs : List ℕ}
      → IsList h p (x ∷ xs)
      → (x == e) ≡ true
      → Deleted h p (x ∷ xs) (pop h p)
  unfolding member remove
  Deleted-first {h} {p} {x} {xs} v q =
      let (r, left, gone, frame) = pop_lem h p x xs v in
      rw q (r ∙ (==_iff x e).0 q, left, λ a out. frame a out.0 out.1.0)

  Deleted-later :
      {h : Memory} {p x : ℕ} {xs : List ℕ} {r : ℕ × Memory}
      → IsList h p (x ∷ xs)
      → (x == e) ≡ false
      → Deleted h x xs r
      → Deleted h p (x ∷ xs) r
  unfolding member remove
  Deleted-later {h} {p} {x} {xs} {r} v q (answer, left, frame) = rw q (
    answer,
    record {
      header = v.header;
      chain = (frame p v.apart ∙ v.chain.0, v.chain.1, left.chain);
      apart = (v.apart.0, NotIn-remove p e xs v.apart.1);
      distinct = (NotIn-remove x e xs v.distinct.0, left.distinct);
    },
    λ a out. frame a out.1,
  )

  delete-walk :
      (fuel : ℕ) (h : Memory) (p : ℕ) (xs : List ℕ)
      → IsList h p xs
      → length xs < fuel
      → Deleted h p xs (traverse (delete_aux e) fuel h p)
  delete-walk zero h p xs v enough = absurd (omega arith)
  delete-walk (suc fuel) h p [] v enough =
      subst (Deleted h p [])
        (sym (
          traverse-next (delete_aux e) fuel h p v.header
            (delete_aux_no e p h (λ q. some_e (sym q ∙ v.chain)))
          ∙ ap (traverse (delete_aux e) fuel h) v.chain
          ∙ traverse-null (delete_aux e) fuel h))
        (unfold member in unfold remove in (refl, v, λ a out. refl))
  delete-walk (suc fuel) h p (x ∷ xs) v enough = elim (Bool-cases (x == e)) [
    | inl q ↦
        subst (Deleted h p (x ∷ xs))
          (ap (λ (k : ℕ). (k, (pop h p).1)) (pop_lem h p x xs v).0
            ∙ sym (
                traverse-found (delete_aux e) fuel h p x (pop h p).1 v.header v.chain.1 (
                  delete_aux_yes e p h (v.chain.0 ∙ (==_iff x e).0 q)
                  ∙ ap (λ (k : ℕ). (k, (pop h p).1)) (pop_lem h p x xs v).0)))
          (Deleted-first v q)
    | inr q ↦
        subst (Deleted h p (x ∷ xs))
          (sym (
            traverse-next (delete_aux e) fuel h p v.header
              (delete_aux_no e p h (passed v.chain.0 q))
            ∙ ap (traverse (delete_aux e) fuel h) v.chain.0))
          (Deleted-later v q (delete-walk fuel h x xs (tail v) (omega arith)))
  ]

  -- `mu_list_delete` answers the element if it is in the list, else NULL; it takes the element out, and
  -- changes no field but those of the header and the elements.
  pub delete_lem :
      (fuel : ℕ) (h : Memory) (p : ℕ) (xs : List ℕ)
      → IsList h p xs
      → length xs < fuel
      → let (r, g) = delete fuel h p e in
        (r ≡ (if member e xs then e else 0))
        × IsList g p (remove e xs)
        × ((a : ℕ) → NotIn a (p ∷ xs) → g a ≡ h a)
  unfolding delete
  delete_lem fuel h p xs v enough = delete-walk fuel h p xs v enough
