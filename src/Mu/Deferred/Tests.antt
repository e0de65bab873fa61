-- ===== src/Mu/Deferred/Tests.antt =====
-- A schedule with three tasks, on both sides of a wrap of the clock.
use toy_tstat.Common.{
  ℕ, ◌-◌, ◌^◌, ◌≤◌, ◌↔◌, ◌<◌, ◌≡◌, ◌⊎◌, ◌∷◌, All, replicate, if◌then◌else◌, arith,
}
use toy_tstat.Mu.Time.Order.{Within}
use toy_tstat.Mu.Deferred.{
  Schedule, unset, max_deferred, sched_aux, remove, err_none, err_sched_full, err_not_found,
}
use toy_tstat.Mu.Deferred.Order.{pending, insert, IsValid, sched_aux_refines}
use toy_tstat.Mu.Deferred.Removal.{without, has_task, remove_refines}
use toy_tstat.Mu.Deferred.Rewrite.{remove_first}
use toy_tstat.Mu.Deferred.Rewrite.Agrees.{occurrences, remove_first_iff}
use toy_tstat.Mu.Deferred.Sorted.{IsSorted}
use toy_tstat.Mu.Deferred.Stable.{sched_aux-IsSorted}

abbrev base : ℕ
base = 2 ^ 64 - 5

abbrev schedule : Schedule
schedule = record {
  tasks =
      record { at = 4; task = 1 }
      ∷ record { at = 1; task = 2 }
      ∷ record { at = 2 ^ 64 - 3; task = 1 }
      ∷ replicate 17 unset;
  count = 3;
}

schedule-IsValid : IsValid schedule
schedule-IsValid = record { array_fits = omega arith; count_in = omega arith }

near : All (λ e. Within base e.at) (pending schedule)
near = omega arith

sorted : IsSorted base (pending schedule)
sorted = omega arith

sched_aux_example :
    let (err, s') = sched_aux schedule 9 1 in
    IsValid s'
    × (((3 ≡ max_deferred) × (err ≡ err_sched_full) × (s' ≡ schedule))
        ⊎ ((3 < max_deferred)
            × (err ≡ err_none)
            × (pending s' ≡ insert (record { at = 1; task = 9 }) (pending schedule))))
sched_aux_example = sched_aux_refines schedule 9 1 schedule-IsValid

sched_aux-IsSorted_example : IsSorted base (pending (sched_aux schedule 9 1).1)
sched_aux-IsSorted_example =
    sched_aux-IsSorted base schedule 9 1 (omega arith) (omega arith) schedule-IsValid near sorted

remove_example :
    let (err, s') = remove schedule 1 in
    (pending s' ≡ without 1 (pending schedule))
    × (err ≡ (if has_task 1 (pending schedule) then err_none else err_not_found))
    × IsValid s'
remove_example = remove_refines schedule 1 schedule-IsValid

-- The task has two entries, and one of them stays.
remove_first_example :
    let (err, s') = remove_first schedule 1 in
    let (err', s'') = remove schedule 1 in
    (err ≡ err') × ((pending s' ≡ pending s'') ↔ (occurrences 1 (pending schedule) ≤ 1))
remove_first_example = remove_first_iff schedule 1 schedule-IsValid
