-- ===== src/Mu/Sched/Promise.antt =====
-- No program tells the scheduler from the three lists of its waiting tasks.
use toy_tstat.Common.{
  ℕ, zero, suc, ◌≡◌, refl, ap, ap₂, inl, inr, List, [], ◌∷◌, length, ◌==◌, ==_iff, ==_ne,
  if◌then◌else◌, Bool-cases, arith,
}
use toy_tstat.Mu.Spsc
use toy_tstat.Mu.Mqueue
use toy_tstat.Mu.Deferred.{Deferred, TaskErr, max_deferred}
use toy_tstat.Mu.Deferred.Order.{pending, pending_of}
use toy_tstat.Mu.Sched.{
  Sched, select, step, task_call, asap, from_isr, defer_until, remove_deferred_task, uncalled,
}
use toy_tstat.Mu.Sched.Api.{
  asap_refines, from_isr_refines, defer_until_refines, remove_deferred_task_refines,
}
use toy_tstat.Mu.Sched.Select.{IsValid, Waiting, waiting, pick, select_refines}
use toy_tstat.Mu.Sched.Session.{
  Call, Event, called, stepped, Outcome, answered, ran, Limits, do_calls, play, sched_call,
  list_call, sched_step, list_step, invoke, sched_play, list_play,
}

abbrev pub limits : Sched → Limits
limits s = record {
  irq_bound = s.irq_tasks.mask;
  asap_bound = s.asap_tasks.capacity;
  idle = s.idle_task;
}

-- A scheduler keeps a promise: it is valid, its limits are those, and its tasks wait as in the lists.
pub record Keeps (l : Limits) (w : Waiting) (s : Sched) : Type 0 where
  pub valid : IsValid s
  pub same_limits : limits s ≡ l
  pub same_tasks : waiting s ≡ w

pub length-pending_of : (tasks : List Deferred) (n : ℕ) → length (pending_of tasks n) ≡ n
length-pending_of tasks zero = refl
length-pending_of tasks (suc n) = ap suc (length-pending_of tasks n)

asap-limits : (s : Sched) (task : ℕ) → IsValid s → limits (asap s task).1 ≡ limits s
unfolding asap
asap-limits s task v =
    ground (arith, Mqueue.Refine.put_refines uncalled task v.asap_valid v.asap_quiet)

from_isr-limits : (s : Sched) (task : ℕ) → limits (from_isr s task).1 ≡ limits s
unfolding from_isr
from_isr-limits s task = ground (arith, Spsc.Refine.mask-put s.irq_tasks task)

defer_until-limits : (s : Sched) (task at : ℕ) → limits (defer_until s task at).1 ≡ limits s
unfolding defer_until
defer_until-limits s task at = refl

remove-limits : (s : Sched) (task : ℕ) → limits (remove_deferred_task s task).1 ≡ limits s
unfolding remove_deferred_task
remove-limits s task = refl

-- Whether the slots are all in use is seen in the list.
all_used :
    (s : Sched) → (length (pending s.deferred) == max_deferred) ≡ (s.deferred.count == max_deferred)
all_used s = ap (λ n. n == max_deferred) (length-pending_of s.deferred.tasks s.deferred.count)

-- One call.
sched_call-Keeps :
    (s : Sched) (c : Call)
    → IsValid s
    → let (err, s') = sched_call s c in
      let (err', w') = list_call (limits s) (waiting s) c in (err ≡ err') × Keeps (limits s) w' s'
unfolding sched_call list_call
sched_call-Keeps s (Call.asap task) v =
    let (e, w, v') = asap_refines s task v in
    (e, record { valid = v'; same_limits = asap-limits s task v; same_tasks = w })
sched_call-Keeps s (Call.from_isr task) v =
    let (e, w, v') = from_isr_refines s task v in
    (e, record { valid = v'; same_limits = from_isr-limits s task; same_tasks = w })
sched_call-Keeps s (Call.remove task) v =
    let (e, w, v') = remove_deferred_task_refines s task v in
    (e, record { valid = v'; same_limits = remove-limits s task; same_tasks = w })
sched_call-Keeps s (Call.defer_until task at) v =
    let (v', answer) = defer_until_refines s task at v in
    elim answer [
      | inl (full, e, same) ↦
          rw (all_used s, (==_iff s.deferred.count max_deferred).1 full)
            (
              e,
              record {
                valid = v';
                same_limits = defer_until-limits s task at;
                same_tasks = ap (λ (t : Sched). waiting t) same;
              },
            )
      | inr (free, e, w) ↦
          rw (all_used s, ==_ne s.deferred.count max_deferred (λ eq. absurd (omega arith)))
            (e, record { valid = v'; same_limits = defer_until-limits s task at; same_tasks = w })
    ]

pub call-Keeps :
    {l : Limits} {w : Waiting} {s : Sched} (c : Call)
    → Keeps l w s
    → let (err, s') = sched_call s c in
      let (err', w') = list_call l w c in (err ≡ err') × Keeps l w' s'
call-Keeps {s = s} c k = rw (← k.same_limits, ← k.same_tasks) (sched_call-Keeps s c k.valid)

do_calls-Keeps :
    (cs : List Call) {l : Limits} {w : Waiting} {s : Sched}
    → Keeps l w s
    → Keeps l (do_calls (list_call l) w cs) (do_calls sched_call s cs)
unfolding do_calls
do_calls-Keeps [] k = k
do_calls-Keeps (c ∷ cs) k = do_calls-Keeps cs (call-Keeps c k).1

select-limits : (now : ℕ) (s : Sched) → IsValid s → limits (select (λ fn. now) s) ≡ limits s
unfolding select
select-limits now s v = ground (
  arith,
  Spsc.Refine.mask-get s.irq_tasks,
  Mqueue.Refine.get_refines uncalled v.asap_valid v.asap_quiet,
)

-- The choice of a step.
pub select-Keeps :
    {l : Limits} {w : Waiting} {s : Sched} (now : ℕ)
    → Keeps l w s
    → let s' = select (λ fn. now) s in
      let (task, rest) = pick now l.idle w in (s'.curr_task ≡ task) × Keeps l rest s'
select-Keeps {s = s} now k =
    let (e, v) = select_refines (λ fn. now) s k.valid in
    rw (← k.same_limits, ← k.same_tasks)
      (
        ap (λ p. p.0) e,
        record {
          valid = v;
          same_limits = select-limits now s k.valid;
          same_tasks = ap (λ p. p.1) e;
        },
      )

-- The current task is no part of the promise.
pub reset-Keeps :
    {l : Limits} {w : Waiting} {s : Sched} → Keeps l w s → Keeps l w (record s { curr_task = 0 })
reset-Keeps k = record {
  valid = record {
    irq_valid = k.valid.irq_valid;
    asap_valid = k.valid.asap_valid;
    asap_quiet = k.valid.asap_quiet;
    deferred_valid = k.valid.deferred_valid;
  };
  same_limits = k.same_limits;
  same_tasks = k.same_tasks;
}

module _ (script : ℕ → List Call) where
  task_call-Keeps :
      {l : Limits} {w : Waiting} {s : Sched} (task : ℕ)
      → Keeps l w s
      → Keeps l
          (if task == 0 then w else do_calls (list_call l) w (script task))
          (task_call (invoke script) task s)
  unfolding task_call
  task_call-Keeps task k = elim (Bool-cases (task == 0)) [
    | inl e ↦ rw e k
    | inr e ↦ rw e (do_calls-Keeps (script task) k)
  ]

  step-Keeps :
      {l : Limits} {w : Waiting} {s : Sched} (now : ℕ)
      → Keeps l w s
      → let (task, s') = sched_step script now s in
        let (task', w') = list_step script l now w in (task ≡ task') × Keeps l w' s'
  unfolding sched_step list_step step
  step-Keeps now k =
      let (e, k') = select-Keeps now k in (e, rw (← e) (reset-Keeps (task_call-Keeps _ k')))

  -- A program of calls and steps, whose tasks make calls in turn, gets from a scheduler that keeps the
  -- promise of three lists the answers that the lists give, and runs the tasks that they name, in that
  -- order: a step takes the first task of interrupts, or else the first deferred one if its time has come,
  -- or else the first that is to run soon. At its end the scheduler keeps the promise of the lists at
  -- theirs.
  pub play-Keeps :
      (events : List Event) {l : Limits} {w : Waiting} {s : Sched}
      → Keeps l w s
      → let (outcomes, s') = sched_play script s events in
        let (outcomes', w') = list_play script l w events in (outcomes ≡ outcomes') × Keeps l w' s'
  unfolding play
  play-Keeps [] k = (refl, k)
  play-Keeps (called c ∷ es) k =
      let (e, k') = call-Keeps c k in
      let (more, end) = play-Keeps es k' in
      (ap₂ (λ (x : TaskErr) (xs : List Outcome). answered x ∷ xs) e more, end)
  play-Keeps (stepped now ∷ es) k =
      let (e, k') = step-Keeps now k in
      let (more, end) = play-Keeps es k' in
      (ap₂ (λ (x : ℕ) (xs : List Outcome). ran x ∷ xs) e more, end)
