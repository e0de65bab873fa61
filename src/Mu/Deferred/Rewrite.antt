-- ===== src/Mu/Deferred/Rewrite.antt =====
-- mulib/mulib/core/mu_sched.c: the other `mu_sched_remove_deferred_task`, which is switched off there.
pub mod Agrees
use toy_tstat.Common.{ℕ, zero, suc, ◌-◌, ltb, ◌==◌, if◌then◌else◌, get_or}
use toy_tstat.Common.Memmove.{memmove}
use toy_tstat.Mu.Deferred.{unset, Schedule, TaskErr, err_none, err_not_found}

-- The slot at `i` is closed by the entries above it.
pub close_at : Schedule → ℕ → Schedule
close_at s i =
    let to_move = s.count - suc i in
    record {
      tasks = if ltb 0 to_move then memmove s.tasks i (suc i) to_move else s.tasks;
      count = s.count - 1;
    }

-- The loop from the candidate at `i` on, over `n` entries.
pub remove_first_from : Schedule → ℕ → ℕ → ℕ → TaskErr × Schedule
unfolding close_at
remove_first_from s task i zero = (err_not_found, s)
remove_first_from s task i (suc n) =
    let rest = remove_first_from s task (suc i) n in
    if (get_or s.tasks i unset).task == task then (err_none, close_at s i) else rest

pub remove_first : Schedule → ℕ → TaskErr × Schedule
unfolding remove_first_from
remove_first s task = remove_first_from s task 0 s.count
