-- ===== src/App/Coms/Pieces.antt =====
-- Bytes without a NUL, which the loop of coms_mgr.c takes whole.
use toy_tstat.Common.{
  ℕ, zero, suc, ◌≤◌, ◌<◌, ◌≡◌, ◌≢◌, refl, sym, ap, List, [], ◌∷◌, ◌++◌, length, drop, All, ==_ne,
  arith,
}
use toy_tstat.Common.Chars.{Bytes}
use toy_tstat.App.Coms.Receive.{message, last_or}

abbrev pub NoNul : Bytes → Type 0
NoNul = All (λ c. c ≢ 0)

-- One after the other.
abbrev pub joined : List (ℕ × Bytes) → Bytes
joined [] = []
joined (p ∷ ps) = p.1 ++ joined ps

-- A message, or a part of one, that fits is taken whole.
pub message-NoNul : (room : ℕ) (xs : Bytes) → length xs ≤ room → NoNul xs → message room xs ≡ xs
unfolding message
message-NoNul zero [] h n = refl
message-NoNul zero (c ∷ cs) h n = absurd (omega arith)
message-NoNul (suc room) [] h n = refl
message-NoNul (suc room) (c ∷ cs) h (ne, n) =
    rw (==_ne c 0 ne) (ap (λ t. c ∷ t) (message-NoNul room cs (omega arith) n))

pub message-last :
    (room : ℕ) (xs : Bytes)
    → length xs < room
    → NoNul xs
    → message room (xs ++ 0 ∷ []) ≡ xs ++ 0 ∷ []
unfolding message
message-last zero xs h n = absurd (omega arith)
message-last (suc room) [] h n = refl
message-last (suc room) (c ∷ cs) h (ne, n) =
    rw (==_ne c 0 ne) (ap (λ t. c ∷ t) (message-last room cs (omega arith) n))

pub last_or-NoNul : (d : ℕ) (xs : Bytes) → xs ≢ [] → NoNul xs → last_or d xs ≢ 0
unfolding last_or
last_or-NoNul d [] ne n = absurd (ne refl)
last_or-NoNul d (c ∷ []) ne (h, n) = h
last_or-NoNul d (c ∷ e ∷ cs) ne (h, n) = last_or-NoNul c (e ∷ cs) (λ q. cc) n

pub last_or-last : (d : ℕ) (xs : Bytes) → last_or d (xs ++ 0 ∷ []) ≡ 0
unfolding last_or
last_or-last d [] = refl
last_or-last d (c ∷ cs) = last_or-last c cs

pub append_left : (xs ys : Bytes) → xs ≡ xs ++ ys → ys ≡ []
append_left [] ys e = sym e
append_left (x ∷ xs) ys e = append_left xs ys (ap (drop 1) e)
