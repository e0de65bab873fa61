-- ===== src/Mu/Sched/Select.antt =====
-- Which task `mu_sched_step` runs: one that an interrupt scheduled, else the soonest deferred task
-- that is due, else the oldest of those to run soon, else the idle task.
use toy_tstat.Common.{ℕ, ◌≡◌, List, [], ◌∷◌, ◌==◌, if◌then◌else◌, arith}
use toy_tstat.Mu.Fifo.{poll}
use toy_tstat.Mu.Spsc
use toy_tstat.Mu.Mqueue
use toy_tstat.Mu.Deferred
use toy_tstat.Mu.Deferred.{Deferred}
use toy_tstat.Mu.Deferred.Order.{pending, due, fetch_runnable_refines}
use toy_tstat.Mu.Sched.{Sched, uncalled, select, get_current_time}

pub record IsValid (s : Sched) : Type 0 where
  pub irq_valid : Spsc.Inv.IsValid s.irq_tasks
  pub asap_valid : Mqueue.Inv.IsValid s.asap_tasks
  pub asap_quiet : Mqueue.Refine.IsQuiet s.asap_tasks
  pub deferred_valid : Deferred.Order.IsValid s.deferred

-- The waiting tasks: from interrupts, deferred, and to run soon, each in its order.
abbrev pub Waiting : Type 0
Waiting = List ℕ × List Deferred × List ℕ

abbrev pub waiting : Sched → Waiting
waiting s =
    (Spsc.Refine.contents s.irq_tasks, pending s.deferred, Mqueue.Refine.contents s.asap_tasks)

-- The choice among tasks to run soon, and the idle task.
unfoldable pub pick_asap : ℕ → List Deferred → List ℕ → ℕ × Waiting
pick_asap idle later [] = (idle, ([], later, []))
pick_asap idle later (task ∷ rest) = (task, ([], later, rest))

-- The task to run at the time `now`, and those that stay.
unfoldable pub pick : ℕ → ℕ → Waiting → ℕ × Waiting
unfolding pick_asap
pick now idle (task ∷ irqs, later, asaps) = (task, (irqs, later, asaps))
pick now idle ([], later, asaps) =
    let (task, later') = due now later in
    if task == 0 then pick_asap idle later' asaps else (task, ([], later', asaps))

-- On a valid scheduler the choice of `mu_sched_step` is that of `pick`, for the task and for those
-- that stay, and the scheduler stays valid.
pub select_refines :
    (clock : ℕ → ℕ) (s : Sched)
    → IsValid s
    → let s' = select clock s in
      ((s'.curr_task, waiting s') ≡ pick (clock s.clock_fn) s.idle_task (waiting s)) × IsValid s'
unfolding select pick poll get_current_time
select_refines clock s v = ground (
  arith,
  Spsc.Refine.get_refines v.irq_valid,
  Spsc.Inv.get-IsValid v.irq_valid,
  fetch_runnable_refines s.deferred (clock s.clock_fn) v.deferred_valid,
  Mqueue.Refine.get_refines uncalled v.asap_valid v.asap_quiet,
)
