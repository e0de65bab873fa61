-- ===== src/Tstat/Load/Match.antt =====
-- Which texts the comparisons of tstat_model.c take for a name.
use toy_tstat.Common.{
  ℕ, zero, suc, ◌-◌, ◌≤◌, ◌≡◌, refl, sym, ap₂, ◌↔◌, inl, inr, true, false, [], ◌∷◌, ◌++◌, length,
  take, drop, ◌==◌, ==_iff, ==_self, arith, Bool-cases, length-drop,
}
use toy_tstat.Common.Chars.{Bytes, strncmp_eq}
use toy_tstat.Tstat.Load.{Token, string, token_streq}

-- The text of a token, and that it lies in the JSON text.
abbrev pub text : Bytes → Token → Bytes
text json t = take (t.end - t.start) (drop t.start json)

pub record Inside (json : Bytes) (t : Token) : Type 0 where
  pub ordered : t.start ≤ t.end
  pub in_text : t.end ≤ length json

pub strncmp_eq_prefix :
    (n : ℕ) (a b : Bytes)
    → n ≤ length a
    → strncmp_eq a b n ≡ true
    → (rest : Bytes) × (b ≡ take n a ++ rest)
unfolding strncmp_eq
strncmp_eq_prefix zero a b h e = (b, refl)
strncmp_eq_prefix (suc n) [] b h e = absurd (omega arith)
strncmp_eq_prefix (suc n) (x ∷ a) [] h e = cc
strncmp_eq_prefix (suc n) (x ∷ a) (y ∷ b) h e = elim (Bool-cases (x == y)) [
  | inl same ↦
      let deeper : strncmp_eq a b n ≡ true = rw same at e in
      let (rest, q) = strncmp_eq_prefix n a b (omega arith) deeper in
      (rest, ap₂ ◌∷◌ (sym ((==_iff x y).0 same)) q)
  | inr other ↦ let bad : false ≡ true = rw other at e in cc
]

pub prefix_strncmp_eq :
    (n : ℕ) (a rest : Bytes) → n ≤ length a → strncmp_eq a (take n a ++ rest) n ≡ true
unfolding strncmp_eq
prefix_strncmp_eq zero a rest h = refl
prefix_strncmp_eq (suc n) [] rest h = absurd (omega arith)
prefix_strncmp_eq (suc n) (x ∷ a) rest h = rw (==_self x) (prefix_strncmp_eq n a rest (omega arith))

-- A key stands for a field name if it is any prefix of the name, the empty one and the whole name
-- included, and for no other name.
pub token_streq_iff :
    (json : Bytes) (t : Token) (str : Bytes)
    → t.type ≡ string
    → Inside json t
    → (token_streq json t str ≡ true) ↔ ((rest : Bytes) × (str ≡ text json t ++ rest))
unfolding token_streq
token_streq_iff json t str e i = rw e (
  (λ h. strncmp_eq_prefix (t.end - t.start) (drop t.start json) str room h),
  (λ (rest, q). rw q (prefix_strncmp_eq (t.end - t.start) (drop t.start json) rest room)),
)
  where
    room : t.end - t.start ≤ length (drop t.start json)
    room = omega (arith, length-drop t.start json, i.in_text)
