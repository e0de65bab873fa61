-- ===== src/Mu/Task/State.antt =====
-- What the calls of mu_task.c do to the state of a task and to the scheduler.
use toy_tstat.Common.{
  ℕ, ◌≡◌, ◌≢◌, refl, sym, ap, ◌∙◌, inl, inr, true, false, ◌==◌, ==_iff, ==_self, ==_ne,
  if◌then◌else◌, Bool-cases,
}
use toy_tstat.Mu.Fifo.{offer}
use toy_tstat.Mu.Sched.Select.{IsValid, waiting}
use toy_tstat.Mu.Sched.Api.{refusal, asap_refines}
use mathlib.Core.Path.{subst}
use toy_tstat.Mu.Sched.{asap}
use toy_tstat.Mu.Task.{
  Task, World, Code, get_state, get_fn, get_user_info, set_state, yield, wait, transfer, write,
}

write_here : (w : World) (task : ℕ) (t : Task) → (write w task t).tasks task ≡ t
unfolding write
write_here w task t = ap (λ b. if b then t else w.tasks task) (==_self task)

write_other :
    (w : World) (task : ℕ) (t : Task) (a : ℕ) → a ≢ task → (write w task t).tasks a ≡ w.tasks a
unfolding write
write_other w task t a ne = ap (λ b. if b then t else w.tasks a) (==_ne a task ne)

sched-write : (w : World) (task : ℕ) (t : Task) → (write w task t).sched ≡ w.sched
unfolding write
sched-write w task t = refl

module _ (code : Code) where
  hooked : World → ℕ → ℕ → World
  hooked w task state =
      if w.set_state_hook == 0
      then w
      else code.run_set_state_hook w.set_state_hook task (get_state w task) state w

  unhooked : (w : World) (task state : ℕ) → w.set_state_hook ≡ 0 → hooked w task state ≡ w
  unfolding hooked
  unhooked w task state none =
      ap
        (λ b.
          if b then w else code.run_set_state_hook w.set_state_hook task (get_state w task) state w)
        ((==_iff w.set_state_hook 0).1 none)

  set_state_same :
      (w : World) (task state : ℕ)
      → (state == get_state w task) ≡ true
      → set_state code w task state ≡ w
  unfolding set_state
  set_state_same w task state e = rw e

  set_state_new :
      (w : World) (task state : ℕ)
      → (state == get_state w task) ≡ false
      → set_state code w task state
        ≡ (let h = hooked w task state in write h task (record (h.tasks task) { state = state }))
  unfolding set_state hooked
  set_state_new w task state e = rw e

  -- After `mu_task_set_state` the task is in the state asked for, whatever an installed hook does.
  pub set_state-get_state :
      (w : World) (task state : ℕ) → get_state (set_state code w task state) task ≡ state
  unfolding get_state
  set_state-get_state w task state = elim (Bool-cases (state == get_state w task)) [
    | inl e ↦
        ap (λ (v : World). get_state v task) (set_state_same w task state e)
        ∙ sym ((==_iff state (get_state w task)).0 e)
    | inr e ↦
        let h = hooked w task state in
        ap (λ (v : World). get_state v task) (set_state_new w task state e)
        ∙ ap (λ (t : Task). t.state) (write_here h task (record (h.tasks task) { state = state }))
  ]

  -- Without a hook, nothing changes but the state of that task.
  pub set_state_frame :
      (w : World) (task state : ℕ)
      → w.set_state_hook ≡ 0
      → let w' = set_state code w task state in
        (w'.sched ≡ w.sched)
        × ((a : ℕ) → a ≢ task → w'.tasks a ≡ w.tasks a)
        × (get_fn w' task ≡ get_fn w task)
        × (get_user_info w' task ≡ get_user_info w task)
  unfolding get_fn get_user_info
  set_state_frame w task state none = elim (Bool-cases (state == get_state w task)) [
    | inl e ↦ rw (set_state_same w task state e) (refl, λ a ne. refl, refl, refl)
    | inr e ↦
        let changed = let t : Task = record (w.tasks task) { state = state } in t in
        rw (set_state_new w task state e, unhooked w task state none)
          (
            sched-write w task changed,
            λ a ne. write_other w task changed a ne,
            ap (λ (t : Task). t.fn) (write_here w task changed),
            ap (λ (t : Task). t.user_info) (write_here w task changed),
          )
  ]

  -- `mu_task_yield` without a hook, on a valid scheduler: the task has its next state, and waits behind
  -- those to run soon; if their queue is full the answer is SCHED_FULL, and the state is set all the same.
  pub yield_refines :
      (w : World) (task next_state : ℕ)
      → w.set_state_hook ≡ 0
      → IsValid w.sched
      → let (err, w') = yield code w task next_state in
        let (irqs, later, asaps) = waiting w.sched in
        let (done, asaps') = offer w.sched.asap_tasks.capacity asaps task in
        (err ≡ refusal done)
        × (waiting w'.sched ≡ (irqs, later, asaps'))
        × IsValid w'.sched
        × (get_state w' task ≡ next_state)
  unfolding yield get_state
  yield_refines w task next_state none v =
      let w' = set_state code w task next_state in
      let (irqs, later, asaps) = waiting w.sched in
      let (done, asaps') = offer w.sched.asap_tasks.capacity asaps task in
      let (answer, group, ok) =
        subst
          (λ s.
            let (err, s') = asap s task in
            (err ≡ refusal done) × (waiting s' ≡ (irqs, later, asaps')) × IsValid s')
          (sym (set_state_frame w task next_state none).0) (asap_refines w.sched task v) in
      (answer, group, ok, set_state-get_state w task next_state)

  -- The state that the calls which set one leave the task in.
  pub wait-get_state :
      (w : World) (task state : ℕ) → get_state (wait code w task state).1 task ≡ state
  unfolding wait
  wait-get_state w task state = set_state-get_state w task state

  pub yield-get_state :
      (w : World) (task state : ℕ) → get_state (yield code w task state).1 task ≡ state
  unfolding yield get_state
  yield-get_state w task state = set_state-get_state w task state

  pub transfer-get_state :
      (w : World) (task state to : ℕ) → get_state (transfer code w task state to).1 task ≡ state
  unfolding transfer get_state
  transfer-get_state w task state to = set_state-get_state w task state
