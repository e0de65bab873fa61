-- ===== src/Mu/Str/Parse/Number.antt =====
-- What the parsers of integers make of a text.
use toy_tstat.Common.{
  ℕ, zero, suc, ◌+◌, ◌-◌, ◌*◌, ◌/◌, ◌%◌, ◌^◌, ◌<◌, ◌≤◌, ◌≡◌, refl, sym, ap, ◌∙◌, inl, inr, true,
  false, [], ◌∷◌, take, drop, length, length-drop, ltb, leb, ◌==◌, ==_iff, get_or, Bool-cases,
  arith, lt→ltb,
}
use native.Mathlib.Numerals.{unary_clauses}
use native.Mathlib.Nat.{mod-eq_of_lt, mod-add-div, add-mul-mod_self_right, pow-suc, one-le-pow}
use toy_tstat.Common.Ints.{ℤ, pos, negsuc, abs}
use toy_tstat.Common.Chars.{Bytes, read_digits, show_nat, show_int, is_digit}
use toy_tstat.Common.Decimal.{digits_head, read_digits-show_nat}
use toy_tstat.Mu.Str.{Str}
use toy_tstat.Mu.Str.Compare.{text, IsValid}
use toy_tstat.Mu.Str.Parse.{is_decimal, parse_from, parse_uint, to_signed, parse_int}

-- Multiplying and adding modulo `m`.
times_ten : (m v d : ℕ) → (v % m * 10 + d) % m ≡ (v * 10 + d) % m
times_ten m v d =
    sym (add-mul-mod_self_right (v % m * 10 + d) (v / m * 10) m) ∙ ap (λ k. k % m) whole
  where
    whole : v % m * 10 + d + v / m * 10 * m ≡ v * 10 + d
    whole = omega (arith, mod-add-div v m)

parse_from-read_digits :
    (width v len : ℕ) (buf : Bytes)
    → len ≤ length buf
    → parse_from width (v % 2 ^ width) len buf ≡ read_digits v (take len buf) % 2 ^ width
unfolding parse_from read_digits is_decimal
parse_from-read_digits width v zero buf h = refl
parse_from-read_digits width v (suc len) [] h = absurd (omega arith)
parse_from-read_digits width v (suc len) (c ∷ cs) h = elim (Bool-cases (is_digit c)) [
  | inl e ↦
      rw (e, times_ten (2 ^ width) v (c - 48))
        (parse_from-read_digits width (v * 10 + (c - 48)) len cs (omega arith))
  | inr e ↦ rw e refl
]

-- An unsigned parser of `width` bits answers, for a string that lies in its bytes, the number that its
-- leading digits spell (0 if there are none), modulo 2 ^ width.
pub parse_uint-read_digits :
    (width : ℕ) (s : Str) → IsValid s → parse_uint width s ≡ read_digits 0 (text s) % 2 ^ width
unfolding parse_uint
parse_uint-read_digits width s v =
    ap (λ k. parse_from width k s.len s.bytes)
      (sym (mod-eq_of_lt {n = 0} {m = 2 ^ width} (omega (arith, one-le-pow width 2))))
    ∙ parse_from-read_digits width 0 s.len s.bytes v

-- A string whose text is a number in decimal.
parse_uint-show_nat :
    (width n : ℕ) (s : Str) → IsValid s → text s ≡ show_nat n → parse_uint width s ≡ n % 2 ^ width
unfolding show_nat
parse_uint-show_nat width n s v e =
    parse_uint-read_digits width s v
    ∙ ap (λ t. read_digits 0 t % 2 ^ width) e
    ∙ ap (λ x. x % 2 ^ width) (read_digits-show_nat n [] tt)

-- A text that is not empty.
text_cons :
    (buf : Bytes) (len c : ℕ) (cs : Bytes)
    → take len buf ≡ c ∷ cs
    → (1 ≤ len) × (get_or buf 0 0 ≡ c) × (take (len - 1) (drop 1 buf) ≡ cs)
text_cons buf zero c cs e = cc
text_cons [] (suc len) c cs e = cc
text_cons (x ∷ xs) (suc len) c cs e =
    (omega arith, ap (λ l. get_or l 0 0) e, simp unary_clauses (ap (drop 1) e))

parse_int-plus :
    (width c : ℕ) (cs : Bytes) (s : Str)
    → text s ≡ c ∷ cs
    → is_digit c ≡ true
    → parse_int width s ≡ to_signed width (parse_uint width s)
unfolding parse_int parse_uint
parse_int-plus width c cs s e digit =
    let (some, first, rest) = text_cons s.bytes s.len c cs e in
    let no_minus : (get_or s.bytes 0 0 == 45) ≡ false = ground (arith, first, digit) in
    let present : leb 1 s.len ≡ true = ground arith in rw (present, no_minus) refl

parse_int-minus :
    (width : ℕ) (cs : Bytes) (s : Str)
    → text s ≡ 45 ∷ cs
    → let left : Str = record { bytes = drop 1 s.bytes; len = s.len - 1 } in
      parse_int width s ≡ to_signed width ((2 ^ width - parse_uint width left) % 2 ^ width)
unfolding parse_int parse_uint
parse_int-minus width cs s e =
    let (some, first, rest) = text_cons s.bytes s.len 45 cs e in
    let present : leb 1 s.len ≡ true = ground arith in
    let minus : (get_or s.bytes 0 0 == 45) ≡ true = (==_iff _ 45).1 first in
    rw (present, minus) refl

half : (k : ℕ) → 2 ^ (suc k - 1) ≡ 2 ^ k
half k = ap (λ e. 2 ^ e) (omega arith)

not_ltb : (a b : ℕ) → b ≤ a → ltb a b ≡ false
not_ltb a b h = ground arith

to_signed-small : (k n : ℕ) → n < 2 ^ k → to_signed (suc k) (n % 2 ^ suc k) ≡ pos n
unfolding to_signed
to_signed-small k n h =
    let fits : n % 2 ^ suc k ≡ n = mod-eq_of_lt (omega (arith, pow-suc 2 k)) in
    rw (fits, half k, lt→ltb n (2 ^ k) h) refl

to_signed-minus :
    (k n : ℕ)
    → suc n < 2 ^ k
    → to_signed (suc k) ((2 ^ suc k - suc n % 2 ^ suc k) % 2 ^ suc k) ≡ negsuc n
unfolding to_signed
to_signed-minus k n h =
    let fits : suc n % 2 ^ suc k ≡ suc n = mod-eq_of_lt (omega (arith, pow-suc 2 k)) in
    let same : (2 ^ suc k - suc n) % 2 ^ suc k ≡ 2 ^ suc k - suc n =
      mod-eq_of_lt (omega (arith, pow-suc 2 k)) in
    let high = not_ltb (2 ^ suc k - suc n) (2 ^ k) (omega (arith, pow-suc 2 k)) in
    let back : 2 ^ suc k - (2 ^ suc k - suc n) - 1 ≡ n = omega (arith, pow-suc 2 k) in
    rw (fits, same, half k, high, back) refl

-- A signed parser of `k + 1` bits reads an integer in decimal back, if its magnitude is below 2 ^ k.
pub parse_int-show_int :
    (k : ℕ) (z : ℤ) (s : Str)
    → IsValid s
    → text s ≡ show_int z
    → abs z < 2 ^ k
    → parse_int (suc k) s ≡ z
unfolding show_int show_nat
parse_int-show_int k (pos n) s v e h =
    let (c, cs, begins, digit) = digits_head n n [] in
    parse_int-plus (suc k) c cs s (e ∙ begins) digit
    ∙ ap (to_signed (suc k)) (parse_uint-show_nat (suc k) n s v e)
    ∙ to_signed-small k n h
parse_int-show_int k (negsuc n) s v e h =
    let left : Str = record { bytes = drop 1 s.bytes; len = s.len - 1 } in
    let (some, first, rest) = text_cons s.bytes s.len 45 (show_nat (suc n)) e in
    parse_int-minus (suc k) (show_nat (suc n)) s e
    ∙ ap (λ m. to_signed (suc k) ((2 ^ suc k - m) % 2 ^ suc k))
        (parse_uint-show_nat (suc k) (suc n) left (omega (arith, length-drop 1 s.bytes, v)) rest)
    ∙ to_signed-minus k n h
