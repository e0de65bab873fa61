-- ===== src/Mu/Deferred.antt =====
-- The deferred tasks of mulib/mulib/core/mu_sched.c: an array of tasks and their times, of which the
-- first `count` are in use, the soonest last.
pub mod Order
pub mod Removal
pub mod Rewrite
pub mod Sorted
pub mod Stable
mod Tests
use toy_tstat.Common.{
  ℕ, zero, suc, ◌+◌, ◌-◌, Bool, true, false, not, ◌&&◌, List, ltb, leb, ◌==◌, if◌then◌else◌, get_or,
  set, Option, none, some,
}
use toy_tstat.Common.Memmove.{memmove}
use toy_tstat.Mu.Time.{precedes, follows}

-- `deferred_task_t`; a task is a pointer.
pub record Deferred : Type 0 where
  pub at : ℕ
  pub task : ℕ

-- What a slot holds before it is written: static storage starts as zeros.
abbrev pub unset : Deferred
unset = record { at = 0; task = 0 }

-- MU_CONFIG_SCHED_MAX_DEFERRED_TASKS
abbrev pub max_deferred : ℕ
max_deferred = 20

-- `s_deferred_tasks` and `s_sched.deferred_task_count`.
pub record Schedule : Type 0 where
  pub tasks : List Deferred
  pub count : ℕ

-- `mu_task_err_t`
pub data TaskErr : Type 0 where
  err_none err_sched_full err_not_found : TaskErr

pub peek_next : Schedule → Option Deferred
peek_next s = if ltb 0 s.count then some (get_or s.tasks (s.count - 1) unset) else none

-- The search of `sched_aux` from index `i` down: behind the last task that follows `at`.
pub insertion_point : List Deferred → ℕ → ℕ → ℕ
insertion_point tasks at zero = 0
insertion_point tasks at (suc i) =
    if follows (get_or tasks i unset).at at then suc i else insertion_point tasks at i

-- The rest of `sched_aux`: open a slot at `i` and write it.
pub insert_at : Schedule → ℕ → Deferred → Schedule
insert_at s i d =
    let to_move = s.count - i in
    let moved = if ltb 0 to_move then memmove s.tasks (i + 1) i to_move else s.tasks in
    record { tasks = set moved i d; count = s.count + 1 }

pub sched_aux : Schedule → ℕ → ℕ → TaskErr × Schedule
sched_aux s task at = if s.count == max_deferred then (err_sched_full, s) else (
  err_none,
  insert_at s (insertion_point s.tasks at s.count) (record { at = at; task = task }),
)

-- `now` is what the clock function returns. The result is the task, NULL (0) if none is due.
pub fetch_runnable : Schedule → ℕ → ℕ × Schedule
unfolding peek_next
fetch_runnable s now = elim (peek_next s) [
  | none ↦ (0, s)
  | some d ↦ if not (precedes now d.at) then (d.task, record s { count = s.count - 1 }) else (0, s)
]

-- One round of the loop of `mu_sched_remove_deferred_task`, at `i - 1`.
pub remove_at : Schedule → ℕ → ℕ → Bool × Schedule
remove_at s task i =
    if (get_or s.tasks i unset).task == task
    then (
      true,
      let to_move = s.count - suc i in
          record {
            tasks = if ltb 0 to_move then memmove s.tasks i (suc i) to_move else s.tasks;
            count = s.count - 1;
          },
    )
    else (false, s)

pub remove_from : Schedule → ℕ → ℕ → TaskErr → TaskErr × Schedule
unfolding remove_at
remove_from s task zero err = (err, s)
remove_from s task (suc i) err =
    let (found, s') = remove_at s task i in remove_from s' task i (if found then err_none else err)

pub remove : Schedule → ℕ → TaskErr × Schedule
unfolding remove_from
remove s task = remove_from s task s.count err_not_found
