-- ===== src/Mu/Sched.antt =====
-- mulib/mulib/core/mu_sched.c: the run-to-completion scheduler. Tasks and the clock function are
-- pointers. What the function of a task does, and what a clock function returns, come from outside.
pub mod Select
pub mod Api
pub mod Session
pub mod Promise
pub mod Due
pub mod Served
pub mod Example
mod Tests
use toy_tstat.Common.{ℕ, zero, Bool, true, false, Option, none, some, List, if◌then◌else◌, ◌==◌}
use toy_tstat.Common.Ints.{ℤ}
use toy_tstat.Mu.Spsc
use toy_tstat.Mu.Spsc.{Spsc}
use toy_tstat.Mu.Mqueue
use toy_tstat.Mu.Mqueue.{Mqueue}
use toy_tstat.Mu.Time
use toy_tstat.Mu.Deferred
use toy_tstat.Mu.Deferred.{Schedule, TaskErr, err_none, err_sched_full, max_deferred, unset}

-- MU_CONFIG_SCHED_MAX_IRQ_TASKS
abbrev pub max_irq : ℕ
max_irq = 8

-- MU_CONFIG_SCHED_MAX_ASAP_TASKS
abbrev pub max_asap : ℕ
max_asap = 20

-- `mu_sched_t`, with the static arrays that belong to it.
pub record Sched : Type 0 where
  pub irq_tasks : Spsc
  pub asap_tasks : Mqueue
  pub deferred : Schedule
  pub curr_task : ℕ
  pub clock_fn : ℕ
  pub idle_task : ℕ

-- The address of the function `mu_time_now`.
module _ (mu_time_now : ℕ) where
  pub init : Sched → Sched
  init s = record {
    irq_tasks = (Spsc.init s.irq_tasks s.irq_tasks.store max_irq).1;
    asap_tasks = Mqueue.init s.asap_tasks s.asap_tasks.storage max_asap 0 0;
    deferred = record { tasks = s.deferred.tasks; count = 0 };
    curr_task = 0;
    clock_fn = mu_time_now;
    idle_task = 0;
  }

pub reset : Sched → Sched
reset s = record s { deferred = record { tasks = s.deferred.tasks; count = 0 } }

unfoldable pub get_clock_source : Sched → ℕ
get_clock_source s = s.clock_fn

pub set_clock_source : Sched → ℕ → Sched
set_clock_source s clock_fn = record s { clock_fn = clock_fn }

pub get_idle_task : Sched → ℕ
get_idle_task s = s.idle_task

pub set_idle_task : Sched → ℕ → Sched
set_idle_task s task = record s { idle_task = task }

pub current_task : Sched → ℕ
current_task s = s.curr_task

-- The queue of tasks to run soon has no tasks of its own to call.
abbrev pub uncalled : ℕ → Mqueue → Mqueue
uncalled task q = q

pub peek_next_task : Sched → ℕ
peek_next_task s = elim (Deferred.peek_next s.deferred) [
  | some d ↦ d.task
  | none ↦ let (done, task, q) = Mqueue.peek uncalled s.asap_tasks in if done then task else 0
]

pub asap : Sched → ℕ → TaskErr × Sched
asap s task =
    let (done, q) = Mqueue.put uncalled s.asap_tasks task in
    (if done then err_none else err_sched_full, record s { asap_tasks = q })

-- MU_SPSC_ERR_FULL alone is reported.
abbrev pub is_full : Spsc.Err → Bool
is_full Spsc.err_none = false
is_full Spsc.err_empty = false
is_full Spsc.err_full = true
is_full Spsc.err_size = false

pub from_isr : Sched → ℕ → TaskErr × Sched
from_isr s task =
    let (err, q) = Spsc.put s.irq_tasks task in
    (if is_full err then err_sched_full else err_none, record s { irq_tasks = q })

pub defer_until : Sched → ℕ → ℕ → TaskErr × Sched
defer_until s task at =
    let (err, d) = Deferred.sched_aux s.deferred task at in (err, record s { deferred = d })

unfoldable pub remove_deferred_task : Sched → ℕ → TaskErr × Sched
remove_deferred_task s task =
    let (err, d) = Deferred.remove s.deferred task in (err, record s { deferred = d })

-- MU_SPSC_ERR_NONE
abbrev pub got : Spsc.Err → Bool
got Spsc.err_none = true
got Spsc.err_empty = false
got Spsc.err_full = false
got Spsc.err_size = false

-- `mu_task_call`; `invoke` is what the hook and the function of a task do to the scheduler.
pub task_call : (ℕ → Sched → Sched) → ℕ → Sched → Sched
task_call invoke task s = if task == 0 then s else invoke task s

-- The time that a clock function returns when it is called here.
module _ (clock : ℕ → ℕ) where
  pub get_current_time : Sched → ℕ
  get_current_time s = clock s.clock_fn

  pub defer_for : Sched → ℕ → ℤ → TaskErr × Sched
  unfolding get_current_time defer_until
  defer_for s task in_ticks = defer_until s task (Time.offset (get_current_time s) in_ticks)

  -- The first part of `mu_sched_step`: the choice of `curr_task`.
  pub select : Sched → Sched
  unfolding get_current_time
  select s =
      let (err, irq_task, irqs) = Spsc.get s.irq_tasks in
      let (due_task, later) = Deferred.fetch_runnable s.deferred (get_current_time s) in
      let (done, asap_task, asaps) = Mqueue.get uncalled s.asap_tasks in
      if got err
      then record s { irq_tasks = irqs; curr_task = irq_task }
      else if due_task == 0
      then if done
        then record s {
          irq_tasks = irqs;
          deferred = later;
          asap_tasks = asaps;
          curr_task = asap_task;
        }
        else record s {
          irq_tasks = irqs;
          deferred = later;
          asap_tasks = asaps;
          curr_task = s.idle_task;
        }
      else record s { irq_tasks = irqs; deferred = later; curr_task = due_task }

  pub step : (ℕ → Sched → Sched) → Sched → Sched
  unfolding select task_call
  step invoke s =
      let chosen = select s in record (task_call invoke chosen.curr_task chosen) { curr_task = 0 }
