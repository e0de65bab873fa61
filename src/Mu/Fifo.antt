-- ===== src/Mu/Fifo.antt =====
-- What the two queues promise: a bounded first-in first-out queue of pointers, oldest first.
use toy_tstat.Common.{
  ℕ, Bool, true, false, Option, none, some, List, [], ◌∷◌, ◌++◌, length, ◌==◌, if◌then◌else◌, ◌≡◌,
  ◌<◌, arith,
}

pub data Op : Type 0 where
  put : ℕ → Op
  get : Op

-- What a call answers: whether it did its work, and the pointer that came out.
abbrev pub Reply : Type 0
Reply = Bool × Option ℕ

unfoldable pub offer : ℕ → List ℕ → ℕ → Bool × List ℕ
offer bound xs x = if length xs == bound then (false, xs) else (true, xs ++ x ∷ [])

unfoldable pub poll : List ℕ → Option ℕ × List ℕ
poll [] = (none, [])
poll (x ∷ xs) = (some x, xs)

pub offer-full :
    (bound : ℕ) (xs : List ℕ) (x : ℕ) → length xs ≡ bound → offer bound xs x ≡ (false, xs)
unfolding offer
offer-full bound xs x h = ground arith

pub offer-room :
    (bound : ℕ) (xs : List ℕ) (x : ℕ) → length xs < bound → offer bound xs x ≡ (true, xs ++ x ∷ [])
unfolding offer
offer-room bound xs x h = ground arith

abbrev pub is_some : Option ℕ → Bool
is_some none = false
is_some (some x) = true

unfoldable pub run : ℕ → List ℕ → List Op → List Reply
run bound xs [] = []
run bound xs (put x ∷ ops) = let (done, xs') = offer bound xs x in (done, none) ∷ run bound xs' ops
run bound xs (get ∷ ops) = let (out, xs') = poll xs in (is_some out, out) ∷ run bound xs' ops
