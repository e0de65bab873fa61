-- ===== src/Mu/Deferred/Stable.antt =====
-- The deferred tasks of mu_sched.c stay sorted by time across a wrap of the clock, and tasks for the
-- same time run in the order in which they were scheduled.
use toy_tstat.Common.{
  ℕ, ◌≡◌, ◌<◌, ◌∙◌, ap, inl, inr, [], ◌∷◌, ◌++◌, All, if◌then◌else◌, ◌==◌, arith,
}
use mathlib.Core.Path.{subst, sym}
use toy_tstat.Mu.Time.Order.{IsWord, Within}
use toy_tstat.Mu.Deferred.{Schedule, sched_aux, max_deferred}
use toy_tstat.Mu.Deferred.Order.{pending, IsValid, sched_aux_refines}
use toy_tstat.Mu.Deferred.Sorted.{IsSorted, at_time, insert-IsSorted, at_time-insert}

-- If all pending times and the new one lie less than half the clock's range behind `base`, then a
-- schedule in order of time is still so after `sched_aux`, whether it takes the task or not.
pub sched_aux-IsSorted :
    (base : ℕ) (s : Schedule) (task at : ℕ)
    → IsWord base
    → Within base at
    → IsValid s
    → All (λ e. Within base e.at) (pending s)
    → IsSorted base (pending s)
    → IsSorted base (pending (sched_aux s task at).1)
sched_aux-IsSorted base s task at word near v all sorted = elim (sched_aux_refines s task at v).1 [
  | inl (full, e, same) ↦ subst (λ s'. IsSorted base (pending s')) (sym same) sorted
  | inr (room, e, grown) ↦
      subst (IsSorted base) (sym grown)
        (insert-IsSorted base (record { at = at; task = task }) word near (pending s) all sorted)
]

-- Under the same conditions a task that is taken runs after those that wait for the same time, and
-- the order of these does not change.
pub sched_aux-at_time :
    (base : ℕ) (s : Schedule) (task at : ℕ)
    → IsWord base
    → Within base at
    → IsValid s
    → All (λ e. Within base e.at) (pending s)
    → IsSorted base (pending s)
    → s.count < max_deferred
    → (t : ℕ)
    → at_time t (pending (sched_aux s task at).1) ≡ (
        if at == t
        then at_time t (pending s) ++ record { at = at; task = task } ∷ []
        else at_time t (pending s))
sched_aux-at_time base s task at word near v all sorted room t =
    elim (sched_aux_refines s task at v).1 [
      | inl (full, e, same) ↦ absurd (omega (arith, full))
      | inr (_, e, grown) ↦
          ap (at_time t) grown
          ∙ at_time-insert base (record { at = at; task = task }) word near t (pending s) all sorted
    ]
