-- ===== src/Mu/Task.antt =====
-- mulib/mulib/core/mu_task.c: a task's function and state, the hooks that watch them, and the calls
-- that pass on to the scheduler. What hooks and functions do comes from outside.
pub mod State
mod Tests
use toy_tstat.Common.{ℕ, Bool, not, if◌then◌else◌, ◌==◌}
use toy_tstat.Common.Ints.{ℤ}
use toy_tstat.Mu.Deferred.{TaskErr, err_none}
use toy_tstat.Mu.Sched
use toy_tstat.Mu.Sched.{Sched}

-- `mu_task_t`
pub record Task : Type 0 where
  pub fn : ℕ
  pub state : ℕ
  pub user_info : ℕ

-- `mu_task_init`
pub init : Task → ℕ → ℕ → ℕ → Task
init t fn initial_state user_info = record { fn = fn; state = initial_state; user_info = user_info }

-- `mu_task_call`, where `invoke` is what the hook and the function of a task do: NULL is ignored.
unfoldable pub call_with {ℓ} : {W : Type ℓ} → (ℕ → W → W) → ℕ → W → W
call_with invoke task w = if task == 0 then w else invoke task w

-- The tasks by their addresses, the hooks of this file and the scheduler.
pub record World : Type 0 where
  pub tasks : ℕ → Task
  pub call_hook : ℕ
  pub set_state_hook : ℕ
  pub sched : Sched

pub install_call_hook : World → ℕ → World
install_call_hook w fn = record w { call_hook = fn }

pub install_set_state_hook : World → ℕ → World
install_set_state_hook w fn = record w { set_state_hook = fn }

-- What a call hook, the function of a task and a state hook do: by the address of the function, with
-- its arguments.
pub record Code : Type 0 where
  pub run_call_hook : ℕ → ℕ → World → World
  pub run_fn : ℕ → ℕ → ℕ → World → World
  pub run_set_state_hook : ℕ → ℕ → ℕ → ℕ → World → World

pub get_fn : World → ℕ → ℕ
get_fn w task = (w.tasks task).fn

unfoldable pub get_state : World → ℕ → ℕ
get_state w task = (w.tasks task).state

pub get_user_info : World → ℕ → ℕ
get_user_info w task = (w.tasks task).user_info

-- A write to the task at one address.
pub write : World → ℕ → Task → World
write w task t = record w { tasks = λ a. if a == task then t else w.tasks a }

pub set_user_info : World → ℕ → ℕ → World
unfolding write
set_user_info w task user_info = write w task (record (w.tasks task) { user_info = user_info })

pub current_task : World → ℕ
current_task w = Sched.current_task w.sched

-- A call of the scheduler, as the last of a function.
abbrev pub scheduled : World → TaskErr × Sched → TaskErr × World
scheduled w (err, s) = (err, record w { sched = s })

unfoldable pub sched_from_isr : World → ℕ → TaskErr × World
sched_from_isr w task = scheduled w (Sched.from_isr w.sched task)

pub remove_deferred_task : World → ℕ → TaskErr × World
remove_deferred_task w task = scheduled w (Sched.remove_deferred_task w.sched task)

module _ (code : Code) where
  pub call : World → ℕ → ℕ → World
  call w task arg =
      let hooked = if w.call_hook == 0 then w else code.run_call_hook w.call_hook task w in
      if task == 0 then w else code.run_fn (hooked.tasks task).fn task arg hooked

  pub set_state : World → ℕ → ℕ → World
  unfolding get_state write
  set_state w task state =
      let prev_state = get_state w task in
      let hooked =
        if w.set_state_hook == 0
        then w
        else code.run_set_state_hook w.set_state_hook task prev_state state w in
      if state == prev_state
      then w
      else write hooked task (record (hooked.tasks task) { state = state })

  pub wait : World → ℕ → ℕ → TaskErr × World
  wait w task next_state = (err_none, set_state w task next_state)

  pub yield : World → ℕ → ℕ → TaskErr × World
  yield w task next_state =
      let w' = set_state w task next_state in scheduled w' (Sched.asap w'.sched task)

  pub defer_until : World → ℕ → ℕ → ℕ → TaskErr × World
  defer_until w task next_state at =
      let w' = set_state w task next_state in scheduled w' (Sched.defer_until w'.sched task at)

  pub defer_for : (ℕ → ℕ) → World → ℕ → ℕ → ℤ → TaskErr × World
  defer_for clock w task next_state in_ticks =
      let w' = set_state w task next_state in
      scheduled w' (Sched.defer_for clock w'.sched task in_ticks)

  pub transfer : World → ℕ → ℕ → ℕ → TaskErr × World
  transfer w from_task final_state to_task =
      let w' = set_state w from_task final_state in scheduled w' (Sched.asap w'.sched to_task)
