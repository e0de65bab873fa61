-- ===== src/Mu/Links/Tests.antt =====
-- A list of three elements behind the header at address 1.
use toy_tstat.Common.{refl, [], ◌∷◌, if◌then◌else◌, arith, ◌==◌}
use mathlib.Core.List.{reverse_aux}
use toy_tstat.Mu.Links.{Memory, reverse}
use toy_tstat.Mu.Links.Chain.{IsList}
use toy_tstat.Mu.Links.Reverse.{reverse_lem}

abbrev memory : Memory
memory a = if a == 1 then 10 else if a == 10 then 11 else if a == 11 then 12 else 0

three : IsList memory 1 (10 ∷ 11 ∷ 12 ∷ [])
three = record {
  header = omega arith;
  chain = (refl, omega arith, (refl, omega arith, (refl, omega arith, refl)));
  apart = omega arith;
  distinct = omega arith;
}

reverse_example : IsList (reverse 4 memory 1 20) 1 (reverse_aux (10 ∷ 11 ∷ 12 ∷ []) [])
reverse_example =
    reverse_lem 4 memory 1 20 (10 ∷ 11 ∷ 12 ∷ []) three (omega arith) (omega arith) (omega arith)
