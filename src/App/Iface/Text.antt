-- ===== src/App/Iface/Text.antt =====
-- The text that a push of the model sends.
use toy_tstat.Common.{
  ℕ, zero, suc, ◌+◌, ◌-◌, ◌/◌, ◌%◌, ◌^◌, ◌<◌, ◌≤◌, ◌≡◌, refl, ap, ◌∙◌, inl, inr, Bool, true, false,
  ◌&&◌, not, [], ◌∷◌, ◌++◌, length, take, get_or, ◌==◌, ==_iff, ==_ne, Bool-cases, arith, min,
}
use toy_tstat.Common.Ints.{ℤ, pos, negsuc, eq_ℤ}
use toy_tstat.Common.Chars.{Bytes, digits, show_nat, show_int}
use toy_tstat.Jems.Feed.{quote, escape, escape_byte}
use toy_tstat.Jems.{Jems, Level, Doubles}
use toy_tstat.Tstat.Model.{Model, system_mode_off, system_mode_cool, system_mode_heat}
use toy_tstat.Tstat.Load.{
  k_ambient, k_cool_setpoint, k_heat_setpoint, k_relay_y, k_relay_w, k_system_mode,
}
use toy_tstat.Tstat.Dump.{WriterState, dump_json, system_mode_to_string}
use toy_tstat.Tstat.Dump.Text.{IntsExact, IsStored, dump_text, member, show_bool}
use toy_tstat.Tstat.Dump.Buffer.{dump_json_fits}
use toy_tstat.App.Iface.{cstr}

-- No byte of a text is NUL.
no_nul : Bytes → Bool
no_nul [] = true
no_nul (c ∷ cs) = not (c == 0) && no_nul cs

no_nul_cons : (x : ℕ) (xs : Bytes) → (x == 0) ≡ false → no_nul xs ≡ true → no_nul (x ∷ xs) ≡ true
unfolding no_nul
no_nul_cons x xs e p = rw (e, p) refl

no_nul_uncons :
    (x : ℕ) (xs : Bytes) → no_nul (x ∷ xs) ≡ true → ((x == 0) ≡ false) × (no_nul xs ≡ true)
unfolding no_nul
no_nul_uncons x xs p = split (x == 0) (no_nul xs) p
  where
    split : (a b : Bool) → (not a && b) ≡ true → (a ≡ false) × (b ≡ true)
    split false true p = (refl, refl)
    split false false p = cc
    split true b p = cc

no_nul-append : (xs ys : Bytes) → no_nul xs ≡ true → no_nul ys ≡ true → no_nul (xs ++ ys) ≡ true
no_nul-append [] ys p q = q
no_nul-append (x ∷ xs) ys p q =
    let (e, r) = no_nul_uncons x xs p in no_nul_cons x (xs ++ ys) e (no_nul-append xs ys r q)

no_nul-take : (n : ℕ) (xs : Bytes) → no_nul xs ≡ true → no_nul (take n xs) ≡ true
unfolding no_nul
no_nul-take zero xs p = refl
no_nul-take (suc n) [] p = refl
no_nul-take (suc n) (x ∷ xs) p =
    let (e, r) = no_nul_uncons x xs p in no_nul_cons x (take n xs) e (no_nul-take n xs r)

-- The C string of an array ends at its first NUL.
cstr-take :
    (xs : Bytes) (n : ℕ) → no_nul (take n xs) ≡ true → get_or xs n 1 ≡ 0 → cstr xs ≡ take n xs
unfolding cstr
cstr-take [] n p q = absurd (omega arith)
cstr-take (x ∷ xs) zero p q = rw ((==_iff x 0).1 q) refl
cstr-take (x ∷ xs) (suc n) p q =
    let (e, r) = no_nul_uncons x (take n xs) p in rw (e, cstr-take xs n r q) refl

no_nul-digits : (fuel n : ℕ) (out : Bytes) → no_nul out ≡ true → no_nul (digits fuel n out) ≡ true
unfolding digits
no_nul-digits zero n out p = no_nul_cons (48 + n % 10) out (==_ne _ 0 (λ e. absurd (omega arith))) p
no_nul-digits (suc fuel) n out p =
    let more = no_nul_cons (48 + n % 10) out (==_ne _ 0 (λ e. absurd (omega arith))) p in
    elim (Bool-cases (n / 10 == 0)) [
      | inl e ↦ rw e more
      | inr e ↦ rw e (no_nul-digits fuel (n / 10) ((48 + n % 10) ∷ out) more)
    ]

no_nul-show_int : (z : ℤ) → no_nul (show_int z) ≡ true
unfolding no_nul show_int show_nat
no_nul-show_int (pos n) = no_nul-digits n n [] refl
no_nul-show_int (negsuc n) = no_nul-digits (suc n) (suc n) [] refl

no_nul-mode : (z : ℤ) → no_nul (quote (system_mode_to_string z)) ≡ true
unfolding no_nul system_mode_to_string quote escape escape_byte
no_nul-mode z = elim (Bool-cases (eq_ℤ z system_mode_off)) [
  | inl e ↦ rw e refl
  | inr e ↦ elim (Bool-cases (eq_ℤ z system_mode_cool)) [
    | inl f ↦ rw (e, f) refl
    | inr f ↦ elim (Bool-cases (eq_ℤ z system_mode_heat)) [
      | inl g ↦ rw (e, f, g) refl
      | inr g ↦ rw (e, f, g) refl
    ]
  ]
]

no_nul-member :
    (key value : Bytes)
    → no_nul (quote key) ≡ true
    → no_nul value ≡ true
    → no_nul (member key value) ≡ true
unfolding member
no_nul-member key value p q = no_nul-append (quote key) (58 ∷ value) p (no_nul_cons 58 value refl q)

no_nul-show_bool : (b : Bool) → no_nul (show_bool b) ≡ true
unfolding no_nul show_bool
no_nul-show_bool true = refl
no_nul-show_bool false = refl

-- A further member of the object.
no_nul-next : (text : Bytes) → no_nul text ≡ true → no_nul (44 ∷ text) ≡ true
no_nul-next text p = no_nul_cons 44 text refl p

-- The name of a field with its value, for the names of the model.
abbrev IsName : Bytes → Type 0
IsName key = no_nul (quote key) ≡ true

names :
    IsName k_ambient
    × IsName k_cool_setpoint
    × IsName k_heat_setpoint
    × IsName k_relay_y
    × IsName k_relay_w
    × IsName k_system_mode
unfolding no_nul quote escape escape_byte
names = (refl, refl, refl, refl, refl, refl)

brackets : (no_nul (123 ∷ []) ≡ true) × (no_nul (125 ∷ []) ≡ true)
unfolding no_nul
brackets = (refl, refl)

no_nul-dump_text : (m : Model) → no_nul (dump_text m) ≡ true
unfolding dump_text
no_nul-dump_text m =
    let (n_ambient, n_cool, n_heat, n_y, n_w, n_mode) = names in
    let f_ambient = no_nul-member k_ambient _ n_ambient (no_nul-show_int m.ambient) in
    let f_cool =
      no_nul-next _ (no_nul-member k_cool_setpoint _ n_cool (no_nul-show_int m.cool_setpoint)) in
    let f_heat =
      no_nul-next _ (no_nul-member k_heat_setpoint _ n_heat (no_nul-show_int m.heat_setpoint)) in
    let f_y = no_nul-next _ (no_nul-member k_relay_y _ n_y (no_nul-show_bool m.relay_y)) in
    let f_w = no_nul-next _ (no_nul-member k_relay_w _ n_w (no_nul-show_bool m.relay_w)) in
    let f_mode = no_nul-next _ (no_nul-member k_system_mode _ n_mode (no_nul-mode m.system_mode)) in
    no_nul-append _ _ brackets.0 (
      no_nul-append _ _ f_ambient (
        no_nul-append _ _ f_cool (
          no_nul-append _ _ f_heat
            (no_nul-append _ _ f_y (no_nul-append _ _ f_w (no_nul-append _ _ f_mode brackets.1))))))

-- The C string that the dump leaves is the model's JSON, or what fits of it.
pub cstr-dump_json :
    (d : Doubles) (l0 l1 l2 : Level) (jems : Jems WriterState) (m : Model) (buf : Bytes)
    (buflen : ℕ)
    → IntsExact d
    → IsStored m
    → 0 < buflen
    → buflen ≤ length buf
    → buflen < 2 ^ 64
    → cstr (dump_json d (l0 ∷ l1 ∷ l2 ∷ []) jems m buf buflen) ≡ take (buflen - 1) (dump_text m)
cstr-dump_json d l0 l1 l2 jems m buf buflen exact v room fits small =
    let out = dump_json d (l0 ∷ l1 ∷ l2 ∷ []) jems m buf buflen in
    let len = min (buflen - 1) (length (dump_text m)) in
    let r = dump_json_fits d l0 l1 l2 jems m buf buflen exact v room fits small in
    cstr-take out len (ap no_nul r.0 ∙ no_nul-take (buflen - 1) (dump_text m) (no_nul-dump_text m))
      r.1
    ∙ r.0
