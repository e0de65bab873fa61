-- ===== src/Mu/Sched/Session.antt =====
-- Programs that use the scheduler: calls from outside, and steps, whose tasks make calls in turn. What
-- a task's function does is the list of the calls it makes.
use toy_tstat.Common.{ℕ, List, [], ◌∷◌, length, ◌==◌, if◌then◌else◌}
use toy_tstat.Mu.Fifo.{offer}
use toy_tstat.Mu.Deferred.{TaskErr, err_none, err_sched_full, err_not_found, max_deferred}
use toy_tstat.Mu.Deferred.Order.{insert}
use toy_tstat.Mu.Deferred.Removal.{without, has_task}
use toy_tstat.Mu.Sched
use toy_tstat.Mu.Sched.{Sched}
use toy_tstat.Mu.Sched.Api.{refusal}
use toy_tstat.Mu.Sched.Select.{Waiting, pick}

pub data Call : Type 0 where
  asap from_isr remove : ℕ → Call
  defer_until : ℕ → ℕ → Call

-- A step reads the clock once, which then shows the time given.
pub data Event : Type 0 where
  called : Call → Event
  stepped : ℕ → Event

pub data Outcome : Type 0 where
  answered : TaskErr → Outcome
  ran : ℕ → Outcome

-- A program's events on a state, for what a call and a step do to it.
module _ {S : Type 0} (do_call : S → Call → TaskErr × S) where
  unfoldable pub do_calls : S → List Call → S
  do_calls s [] = s
  do_calls s (c ∷ cs) = do_calls (do_call s c).1 cs

  module _ (do_step : ℕ → S → ℕ × S) where
    unfoldable pub play : S → List Event → List Outcome × S
    play s [] = ([], s)
    play s (called c ∷ es) =
        let (err, s') = do_call s c in
        let (outcomes, end) = play s' es in (answered err ∷ outcomes, end)
    play s (stepped now ∷ es) =
        let (task, s') = do_step now s in
        let (outcomes, end) = play s' es in (ran task ∷ outcomes, end)

unfoldable pub sched_call : Sched → Call → TaskErr × Sched
sched_call s (asap task) = Sched.asap s task
sched_call s (from_isr task) = Sched.from_isr s task
sched_call s (remove task) = Sched.remove_deferred_task s task
sched_call s (defer_until task at) = Sched.defer_until s task at

-- The promise: three lists of waiting tasks, with the bounds of two of them and the idle task.
pub record Limits : Type 0 where
  pub irq_bound : ℕ
  pub asap_bound : ℕ
  pub idle : ℕ

unfoldable pub list_call : Limits → Waiting → Call → TaskErr × Waiting
list_call l (irqs, later, asaps) (asap task) =
    let (done, asaps') = offer l.asap_bound asaps task in (refusal done, (irqs, later, asaps'))
list_call l (irqs, later, asaps) (from_isr task) =
    let (done, irqs') = offer l.irq_bound irqs task in (refusal done, (irqs', later, asaps))
list_call l (irqs, later, asaps) (remove task) =
    (if has_task task later then err_none else err_not_found, (irqs, without task later, asaps))
list_call l (irqs, later, asaps) (defer_until task at) =
    if length later == max_deferred
    then (err_sched_full, (irqs, later, asaps))
    else (err_none, (irqs, insert (record { at = at; task = task }) later, asaps))

-- The calls that the function of a task makes, by the task; NULL makes none.
module _ (script : ℕ → List Call) where
  abbrev pub invoke : ℕ → Sched → Sched
  invoke task s = do_calls sched_call s (script task)

  unfoldable pub sched_step : ℕ → Sched → ℕ × Sched
  sched_step now s = ((Sched.select (λ fn. now) s).curr_task, Sched.step (λ fn. now) invoke s)

  unfoldable pub list_step : Limits → ℕ → Waiting → ℕ × Waiting
  list_step l now w =
      let (task, rest) = pick now l.idle w in
      let after = do_calls (list_call l) rest (script task) in
      (task, if task == 0 then rest else after)

  abbrev pub sched_play : Sched → List Event → List Outcome × Sched
  sched_play = play sched_call sched_step

  abbrev pub list_play : Limits → Waiting → List Event → List Outcome × Waiting
  list_play l = play (list_call l) (list_step l)
