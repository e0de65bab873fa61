-- ===== src/Mu/Sched/Api.antt =====
-- What each call of mu_sched.h does to the three groups of waiting tasks.
use toy_tstat.Common.{
  ℕ, ◌≤◌, ◌<◌, ◌≡◌, refl, ap, ap₂, Bool-cases, inl, inr, ◌⊎◌, Bool, true, false, List, [], length,
  arith, ◌==◌, if◌then◌else◌,
}
use toy_tstat.Mu.Fifo.{offer}
use toy_tstat.Mu.Spsc
use toy_tstat.Mu.Mqueue
use toy_tstat.Mu.Deferred.{TaskErr, err_none, err_sched_full, err_not_found, max_deferred}
use toy_tstat.Mu.Deferred.Order.{insert, sched_aux_refines}
use toy_tstat.Mu.Deferred.Removal.{without, has_task, remove_refines}
use toy_tstat.Mu.Sched.{
  Sched, max_irq, max_asap, init, uncalled, asap, from_isr, defer_until, remove_deferred_task,
  select, step, task_call, is_full,
}
use toy_tstat.Mu.Sched.Select.{IsValid, waiting, pick, select_refines}

-- The error that a full queue answers.
abbrev pub refusal : Bool → TaskErr
refusal true = err_none
refusal false = err_sched_full

-- On a valid scheduler `mu_sched_asap` puts a task behind those to run soon, or answers SCHED_FULL if as many wait as
-- the queue holds; nothing else changes.
pub asap_refines :
    (s : Sched) (task : ℕ)
    → IsValid s
    → let (err, s') = asap s task in
      let (irqs, later, asaps) = waiting s in
      let (done, asaps') = offer s.asap_tasks.capacity asaps task in
      (err ≡ refusal done) × (waiting s' ≡ (irqs, later, asaps')) × IsValid s'
unfolding asap
asap_refines s task v =
    ground (arith, Mqueue.Refine.put_refines uncalled task v.asap_valid v.asap_quiet)

refusal-accepted :
    (e : Spsc.Err)
    → (e ≡ Spsc.err_none) ⊎ (e ≡ Spsc.err_full)
    → (if is_full e then err_sched_full else err_none) ≡ refusal (Spsc.Refine.accepted e)
refusal-accepted Spsc.err_none h = refl
refusal-accepted Spsc.err_empty h = ground arith
refusal-accepted Spsc.err_full h = refl
refusal-accepted Spsc.err_size h = ground arith

-- On a valid scheduler `mu_sched_from_isr` puts a task behind those scheduled by interrupts, or answers
-- SCHED_FULL if these are as many as the mask, one less than the store; nothing else changes.
pub from_isr_refines :
    (s : Sched) (task : ℕ)
    → IsValid s
    → let (err, s') = from_isr s task in
      let (irqs, later, asaps) = waiting s in
      let (done, irqs') = offer s.irq_tasks.mask irqs task in
      (err ≡ refusal done) × (waiting s' ≡ (irqs', later, asaps)) × IsValid s'
unfolding from_isr
from_isr_refines s task v = ground (
  arith,
  refusal-accepted (Spsc.put s.irq_tasks task).0 (Spsc.Inv.put_answers s.irq_tasks task),
  Spsc.Refine.put_refines task v.irq_valid,
  Spsc.Inv.put-IsValid task v.irq_valid,
)

-- On a valid scheduler `mu_sched_defer_until` inserts a task into the deferred ones by its time, or answers SCHED_FULL
-- if all slots are in use and changes nothing.
pub defer_until_refines :
    (s : Sched) (task at : ℕ)
    → IsValid s
    → let (err, s') = defer_until s task at in
      let (irqs, later, asaps) = waiting s in
      IsValid s'
      × (((s.deferred.count ≡ max_deferred) × (err ≡ err_sched_full) × (s' ≡ s))
          ⊎ ((s.deferred.count < max_deferred)
              × (err ≡ err_none)
              × (waiting s' ≡ (irqs, insert (record { at = at; task = task }) later, asaps))))
unfolding defer_until
defer_until_refines s task at v =
    ground (arith, sched_aux_refines s.deferred task at v.deferred_valid)

-- On a valid scheduler `mu_sched_remove_deferred_task` takes every entry of a task out of the deferred ones, and answers
-- NOT_FOUND if there is none; the other queues keep their entries.
pub remove_deferred_task_refines :
    (s : Sched) (task : ℕ)
    → IsValid s
    → let (err, s') = remove_deferred_task s task in
      let (irqs, later, asaps) = waiting s in
      (err ≡ (if has_task task later then err_none else err_not_found))
      × (waiting s' ≡ (irqs, without task later, asaps))
      × IsValid s'
unfolding remove_deferred_task
remove_deferred_task_refines s task v =
    ground (arith, remove_refines s.deferred task v.deferred_valid)

-- A scheduler whose arrays have their sizes is valid after `mu_sched_init`, and nothing waits.
pub init-waiting :
    (mu_time_now : ℕ) (s : Sched)
    → max_irq ≤ length s.irq_tasks.store
    → max_asap ≤ length s.asap_tasks.storage
    → max_deferred ≤ length s.deferred.tasks
    → IsValid (init mu_time_now s) × (waiting (init mu_time_now s) ≡ ([], [], []))
unfolding init
init-waiting mu_time_now s irqs asaps deferreds =
    let irq_init = Spsc.Inv.init-IsValid s.irq_tasks s.irq_tasks.store max_irq irqs accepts in
    let asap_init =
      Mqueue.Inv.init-IsValid s.asap_tasks s.asap_tasks.storage max_asap 0 0 asaps (omega arith)
        (omega arith) in
    (
      record {
        irq_valid = irq_init.0;
        asap_valid = asap_init.0;
        asap_quiet = Mqueue.Refine.init-IsQuiet s.asap_tasks s.asap_tasks.storage max_asap;
        deferred_valid = record { array_fits = deferreds; count_in = omega arith };
      },
      ap₂ (λ (irqs : List ℕ) (asaps : List ℕ). (irqs, [], asaps))
          (Spsc.Refine.contents_start irq_init.0 irq_init.1)
          (Mqueue.Refine.contents-empty asap_init.0 asap_init.1),
    )
  where
    accepts : (Spsc.init s.irq_tasks s.irq_tasks.store max_irq).0 ≡ Spsc.err_none
    accepts = (Spsc.Inv.init_accepts s.irq_tasks s.irq_tasks.store max_irq).1 (2, refl)

call-IsValid :
    (invoke : ℕ → Sched → Sched)
    → ((task : ℕ) (t : Sched) → IsValid t → IsValid (invoke task t))
    → (task : ℕ) (t : Sched) → IsValid t
    → IsValid (record (task_call invoke task t) { curr_task = 0 })
unfolding task_call
call-IsValid invoke keeps task t v = elim (Bool-cases (task == 0)) [
  | inl e ↦ rw e (record {
    irq_valid = v.irq_valid;
    asap_valid = v.asap_valid;
    asap_quiet = v.asap_quiet;
    deferred_valid = v.deferred_valid;
  })
  | inr e ↦
      let w = keeps task t v in
      rw e (record {
        irq_valid = w.irq_valid;
        asap_valid = w.asap_valid;
        asap_quiet = w.asap_quiet;
        deferred_valid = w.deferred_valid;
      })
]

-- One `mu_sched_step` calls the task that `pick` names, as the current task of a valid scheduler in
-- which the other tasks wait. Afterwards there is no current task; where the functions of tasks keep
-- the scheduler valid, so does the step.
pub step_runs_pick :
    (clock : ℕ → ℕ) (invoke : ℕ → Sched → Sched) (s : Sched)
    → ((task : ℕ) (t : Sched) → IsValid t → IsValid (invoke task t))
    → IsValid s
    → let (task, rest) = pick (clock s.clock_fn) s.idle_task (waiting s) in
      ((t : Sched) × (waiting t ≡ rest)
        × (t.curr_task ≡ task)
        × IsValid t
        × (step clock invoke s ≡ record (task_call invoke task t) { curr_task = 0 }))
      × IsValid (step clock invoke s)
unfolding step
step_runs_pick clock invoke s keeps v =
    let r = select_refines clock s v in
    let chosen = ap (λ p. p.0) r.0 in
    (
      (
        select clock s,
        ap (λ p. p.1) r.0,
        chosen,
        r.1,
        ap
            (λ (k : ℕ).
              let called : Sched = record (task_call invoke k (select clock s)) { curr_task = 0 } in
              called)
            chosen,
      ),
      call-IsValid invoke keeps (select clock s).curr_task (select clock s) r.1,
    )
