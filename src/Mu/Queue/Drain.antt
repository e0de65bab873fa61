-- ===== src/Mu/Queue/Drain.antt =====
-- The loop of `mu_queue_reset` ends.
use toy_tstat.Common.{ℕ, zero, suc, ◌≤◌, ◌≡◌, refl, sym, ◌∙◌, List, [], ◌∷◌, length, arith}
use mathlib.Core.Path.{subst}
use toy_tstat.Mu.Links.{Memory}
use toy_tstat.Mu.Links.Laws.{is_empty-cons, is_empty-nil}
use toy_tstat.Mu.Queue.{Queue, remove, is_empty, reset}
use toy_tstat.Mu.Queue.Fifo.{IsQueue, queue_remove_refines}

reset_empty : (fuel : ℕ) (h : Memory) (q : Queue) → IsQueue h q [] → reset fuel h q ≡ h
unfolding reset is_empty
reset_empty zero h q v = refl
reset_empty (suc fuel) h q v = rw (is_empty-nil h q.head v.items.chain) refl

reset_cons :
    (fuel : ℕ) (h : Memory) (q : Queue) (x : ℕ) (xs : List ℕ)
    → IsQueue h q (x ∷ xs)
    → reset (suc fuel) h q ≡ reset fuel (remove h q).1 q
unfolding reset is_empty
reset_cons fuel h q x xs v =
    rw (is_empty-cons h q.head x v.items.header v.items.chain.0 v.items.chain.1) refl

-- As many rounds as there are items end the loop, and more make no difference; the queue is then empty.
pub reset_ends :
    (fuel : ℕ) (h : Memory) (q : Queue) (xs : List ℕ)
    → IsQueue h q xs
    → length xs ≤ fuel
    → IsQueue (reset fuel h q) q [] × (reset fuel h q ≡ reset (length xs) h q)
reset_ends fuel h q [] v enough = (
  subst (λ g. IsQueue g q []) (sym (reset_empty fuel h q v)) v,
  reset_empty fuel h q v ∙ sym (reset_empty 0 h q v),
)
reset_ends zero h q (x ∷ xs) v enough = absurd (omega arith)
reset_ends (suc fuel) h q (x ∷ xs) v enough =
    let left = (queue_remove_refines h q (x ∷ xs) v).1 in
    let (drained, same) = reset_ends fuel (remove h q).1 q xs left (omega arith) in
    (
      subst (λ g. IsQueue g q []) (sym (reset_cons fuel h q x xs v)) drained,
      reset_cons fuel h q x xs v ∙ same ∙ sym (reset_cons (length xs) h q x xs v),
    )
