-- ===== src/Mu/Log/Filter.antt =====
-- Which messages of a program reach the logging function.
use toy_tstat.Common.{
  ℕ, ◌≡◌, ◌≢◌, refl, inl, inr, List, [], ◌∷◌, leb, ==_ne, if◌then◌else◌, Bool-cases,
}
use toy_tstat.Common.Chars.{Bytes}
use toy_tstat.Mu.Log.{Log, init, log}

-- The messages of a list that are at or above a level.
pub at_least : ℕ → List (ℕ × Bytes) → List Bytes
at_least bound [] = []
at_least bound ((level, message) ∷ rest) =
    if leb bound level then message ∷ at_least bound rest else at_least bound rest

module _ {ℓ} {W : Type ℓ} (print : ℕ → Bytes → W → W) where
  -- The calls of `mu_log` of a program, in order.
  pub log_all : Log → List (ℕ × Bytes) → W → W
  log_all l [] w = w
  log_all l ((level, message) ∷ rest) w = log_all l rest (log print l level message w)

  -- The messages printed one after another.
  pub print_all : ℕ → List Bytes → W → W
  print_all fn [] w = w
  print_all fn (message ∷ rest) w = print_all fn rest (print fn message w)

  -- After `mu_log_init` with a function, the messages that are printed are those at or above the
  -- level, in their order.
  pub log_all-init :
      (l : Log) (bound fn : ℕ) (messages : List (ℕ × Bytes)) (w : W)
      → fn ≢ 0
      → log_all (init l bound fn) messages w ≡ print_all fn (at_least bound messages) w
  unfolding log_all print_all at_least log init
  log_all-init l bound fn [] w some_fn = refl
  log_all-init l bound fn ((level, message) ∷ rest) w some_fn =
      elim (Bool-cases (leb bound level)) [
        | inl e ↦
            rw (e, ==_ne fn 0 some_fn) (log_all-init l bound fn rest (print fn message w) some_fn)
        | inr e ↦ rw e (log_all-init l bound fn rest w some_fn)
      ]
