-- ===== src/App/TaskInfo.antt =====
-- task_info.c: names of tasks and states, the hooks that log them, and the end of a task's work. A
-- task's `user_info` is the address of its `task_info_t`.
pub mod Trace
use toy_tstat.Common.{
  ℕ, Bool, true, false, not, ◌&&◌, Option, none, some, List, [], ◌∷◌, ltb, ◌==◌, if◌then◌else◌,
  get_or, length,
}
use toy_tstat.Common.Chars.{Bytes, codes}
use toy_tstat.Mu.Task
use toy_tstat.Mu.Task.{World, Code}

-- `task_info_t`; the name may be missing, and `n_states` is the length of the list.
pub record Info : Type 0 where
  pub task_name : Option Bytes
  pub state_names : List Bytes

-- A line of the log: the names that stand before and behind the arrow, and that of the task if given.
pub record Line : Type 0 where
  pub task : Option Bytes
  pub from : Option Bytes
  pub to : Option Bytes

-- `s_prev_task`, and the lines logged.
pub record Tracker : Type 0 where
  pub prev_task : ℕ
  pub lines : List Line

-- `task_info_init` installs the hooks at their addresses. Its last statement is a comparison, so that
-- the tracker is left as it is.
pub init : World → ℕ → ℕ → World
init w call_hook state_hook =
    Task.install_set_state_hook (Task.install_call_hook w call_hook) state_hook

abbrev pub or_unknown : Option Bytes → Bytes
or_unknown none = codes "unknown_task"
or_unknown (some name) = name

-- The `task_info_t` at each address.
module _ (info : ℕ → Info) where
  pub task_name : World → ℕ → Bytes
  task_name w task =
      let user_info = Task.get_user_info w task in
      or_unknown
        (if task == 0 then none else if user_info == 0 then none else (info user_info).task_name)

  pub state_name : World → ℕ → ℕ → Option Bytes
  state_name w task state =
      let user_info = Task.get_user_info w task in
      let names = (info user_info).state_names in
      if task == 0
      then none
      else if user_info == 0
      then none
      else some (if ltb state (length names) then get_or names state [] else codes "unknown_state")

  -- `reporting` is what bb_log says of the level DEBUG, `idle_task` what idle_task.c answers.
  module _ (reporting : Bool) (idle_task : ℕ) where
    pub call_hook : World → ℕ → Tracker → Tracker
    unfolding task_name
    call_hook w task t =
        if not reporting
        then t
        else if not (task == idle_task) && not (task == t.prev_task)
        then record {
          prev_task = task;
          lines =
              record {
                task = none;
                from = some (task_name w t.prev_task);
                to = some (task_name w task);
              }
              ∷ t.lines;
        }
        else t

    pub state_change_hook : World → ℕ → ℕ → ℕ → Tracker → Tracker
    unfolding task_name state_name
    state_change_hook w task from_state to_state t =
        if not reporting then t else if Task.get_user_info w task == 0 then t else record t {
          lines =
              record {
                task = some (task_name w task);
                from = state_name w task from_state;
                to = state_name w task to_state;
              }
              ∷ t.lines;
        }

-- `task_info`, but for the warning that it logs on an error. `continuation` is a name that the file
-- does not declare.
pub task_info : Code → ℕ → World → ℕ → ℕ → Bool → World
task_info code continuation w task terminal_state had_error =
    (Task.transfer code w task terminal_state continuation).1
