-- ===== src/Tstat/Load/Values.antt =====
-- The values that a dump writes, read back by the updates of tstat_model.c.
use toy_tstat.Common.{
  ℕ, zero, suc, ◌-◌, ◌≡◌, refl, ap, ap₂, ◌∙◌, inl, inr, none, some, [], ◌∷◌, ◌++◌, length, take,
  drop, ◌==◌, if◌then◌else◌, arith, Bool-cases, length-drop, length-take,
}
use toy_tstat.Common.Ints.{ℤ, eq_ℤ}
use toy_tstat.Common.Chars.{Bytes, codes, show_int, strncmp_eq}
use toy_tstat.Common.Decimal.{NoDigit, atoi-show_int}
use toy_tstat.Tstat.Model.{system_mode_off, system_mode_cool, system_mode_heat}
use toy_tstat.Tstat.Logic.Control.{IsMode}
use toy_tstat.Tstat.Load.{Token, primitive, update_int, update_enum, sys_names}
use toy_tstat.Tstat.Load.Match.{text, Inside}
use toy_tstat.Tstat.Dump.{system_mode_to_string}

-- An `int` that was written by `%lld` at the start of a primitive token is read back, whatever the
-- end of the token says, if no digit follows it.
pub update_int-show_int :
    (json : Bytes) (t : Token) (z : ℤ) (rest : Bytes)
    → t.type ≡ primitive
    → drop t.start json ≡ show_int z ++ rest
    → NoDigit rest
    → update_int json t ≡ some z
unfolding update_int
update_int-show_int json t z rest kind here stop =
    rw (kind, here) (ap some (atoi-show_int z rest stop))

-- Only the first `n` bytes count.
strncmp_eq-take : (a b : Bytes) (n : ℕ) → strncmp_eq a b n ≡ strncmp_eq (take n a) b n
unfolding strncmp_eq
strncmp_eq-take a b zero = refl
strncmp_eq-take [] [] (suc n) = refl
strncmp_eq-take [] (y ∷ b) (suc n) = refl
strncmp_eq-take (x ∷ a) [] (suc n) = refl
strncmp_eq-take (x ∷ a) (y ∷ b) (suc n) = elim (Bool-cases (x == y)) [
  | inl e ↦ rw e (strncmp_eq-take a b n)
  | inr e ↦ rw e
]

module _ {json : Bytes} {t : Token} {name : Bytes} (i : Inside json t)
    (e : text json t ≡ name) where
  pub compares :
      (b : Bytes)
      → strncmp_eq (drop t.start json) b (t.end - t.start) ≡ strncmp_eq name b (length name)
  compares b =
      strncmp_eq-take (drop t.start json) b (t.end - t.start) ∙ ap₂ (λ a n. strncmp_eq a b n) e size
    where
      size : t.end - t.start ≡ length name
      size = omega (
        arith,
        ap length e,
        length-take (t.end - t.start) (drop t.start json),
        length-drop t.start json,
        i.in_text,
      )

  -- The names that a token with the text `name` is compared with.
  update_enum_text : update_enum json t sys_names ≡ (
      if strncmp_eq name (codes "SYSTEM_MODE_OFF") (length name)
      then some system_mode_off
      else if strncmp_eq name (codes "SYSTEM_MODE_COOL") (length name)
      then some system_mode_cool
      else if strncmp_eq name (codes "SYSTEM_MODE_HEAT") (length name)
      then some system_mode_heat
      else none)
  unfolding update_enum
  update_enum_text = rw (
    compares (codes "SYSTEM_MODE_OFF"),
    compares (codes "SYSTEM_MODE_COOL"),
    compares (codes "SYSTEM_MODE_HEAT"),
  )

-- The name that a dump writes for OFF or COOL is read back as that mode; the one that it writes for
-- HEAT is refused.
pub update_enum-mode_name :
    (json : Bytes) (t : Token) (z : ℤ)
    → IsMode z
    → Inside json t
    → text json t ≡ system_mode_to_string z
    → update_enum json t sys_names ≡ (if eq_ℤ z system_mode_heat then none else some z)
unfolding strncmp_eq system_mode_to_string
update_enum-mode_name json t z h i e = elim h [
  | inl p ↦ rw p (update_enum_text i (e ∙ ap system_mode_to_string p))
  | inr (inl p) ↦ rw p (update_enum_text i (e ∙ ap system_mode_to_string p))
  | inr (inr p) ↦ rw p (update_enum_text i (e ∙ ap system_mode_to_string p))
]
