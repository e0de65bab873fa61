-- ===== src/App/Main.antt =====
-- tstat_app.c: the task that pulls the model, updates it and pushes it. The names that no file declares
-- are parameters: the states START, START_UPDATE_MODEL and DONE, what model_iface_pull returns without a
-- `return`, and `task_info_endgame`, which task_info.h declares and no file defines. For
-- `logic_update_model` stands the function of tstat_logic.c.
pub mod Cycle
mod Tests
use toy_tstat.Common.{ℕ, Bool, true, false, not, List, ◌==◌, if◌then◌else◌}
use toy_tstat.Common.Chars.{Bytes}
use toy_tstat.Jems.{Jems, Level}
use toy_tstat.Mu.Task
use toy_tstat.Mu.Task.{World}
use toy_tstat.Tstat.Model.{Model}
use toy_tstat.Tstat.Logic.{update_model}
use toy_tstat.Tstat.Dump.{WriterState}
use toy_tstat.App.Iface
use toy_tstat.App.Iface.{Setting, Node, ModelIface, world, with_world}

-- TSTAT_APP_STATES
abbrev pub state_idle : ℕ
state_idle = 0

abbrev pub state_start_pull_model : ℕ
state_start_pull_model = 1

abbrev pub state_await_pull_model : ℕ
state_await_pull_model = 2

abbrev pub state_update_model : ℕ
state_update_model = 3

abbrev pub state_start_push_model : ℕ
state_start_push_model = 4

abbrev pub state_await_push_model : ℕ
state_await_push_model = 5

-- `tstat_app_t` but for its `model`, which is the one that model_iface.c is given: it is in `node`, with
-- the contexts of the other files.
pub record TstatApp (D : Type 0) : Type 0 where
  pub on_completion : ℕ
  pub had_error : Bool
  pub node : Node D

pub had_error : {D : Type 0} → TstatApp D → Bool
had_error a = a.had_error

-- The addresses of the task, its function and its info, the names without a declaration, and the local
-- variables of model_iface_push, with what they happen to hold.
pub record Names : Type 0 where
  pub app_task : ℕ
  pub app_fn : ℕ
  pub app_info : ℕ
  pub state_start : ℕ
  pub state_start_update_model : ℕ
  pub state_done : ℕ
  pub pull_returned : Bool
  pub info_endgame : World → ℕ → ℕ → Bool → ℕ → World
  pub buf : Bytes
  pub levels : List Level
  pub jems : Jems WriterState

module _ {D : Type 0} (g : Setting D) (k : Names) where
  -- Writing the tasks.
  abbrev pub in_world : TstatApp D → World → TstatApp D
  in_world a w = record a { node = with_world a.node w }

  -- Writing the model.
  abbrev pub with_model : TstatApp D → Model → TstatApp D
  with_model a m = record a { node = record a.node { self = record a.node.self { model = m } } }

  pub init : World → World
  init w = Task.write w k.app_task (Task.init (w.tasks k.app_task) k.app_fn state_idle k.app_info)

  -- What it returns is not said: the header says `bool`, and the body has no `return`.
  pub start : TstatApp D → ℕ → TstatApp D
  start a on_completion =
      let w = (Task.yield g.code (world a.node) k.app_task k.state_start).1 in
      in_world (record a { on_completion = on_completion; had_error = false }) w

  pub endgame : TstatApp D → Bool → TstatApp D
  endgame a had_error =
      in_world (record a { had_error = had_error })
        (k.info_endgame (world a.node) k.app_task state_idle had_error a.on_completion)

  abbrev pub waiting : TstatApp D → ℕ → TstatApp D
  waiting a state = in_world a (Task.wait g.code (world a.node) k.app_task state).1

  abbrev pub yielding : TstatApp D → ℕ → TstatApp D
  yielding a state = in_world a (Task.yield g.code (world a.node) k.app_task state).1

  pub start_pull_model : TstatApp D → TstatApp D
  unfolding endgame
  start_pull_model a =
      let a' = record a { node = Iface.pull g a.node k.app_task } in
      let failed = endgame a' true in
      let awaiting = waiting a' state_await_pull_model in
      if not k.pull_returned then failed else awaiting

  pub await_pull_model : TstatApp D → TstatApp D
  unfolding endgame
  await_pull_model a =
      let failed = endgame a true in
      let updating = yielding a k.state_start_update_model in
      if Iface.had_error a.node then failed else updating

  pub update : TstatApp D → TstatApp D
  update a = yielding (with_model a (update_model a.node.self.model)) state_start_push_model

  pub start_push_model : TstatApp D → TstatApp D
  unfolding endgame
  start_push_model a =
      let (pushed, node) = Iface.push g k.buf k.levels k.jems a.node in
      let a' = record a { node = node } in
      let failed = endgame a' true in
      let awaiting = waiting a' state_await_push_model in if not pushed then failed else awaiting

  pub await_push_model : TstatApp D → TstatApp D
  unfolding endgame
  await_push_model a =
      let failed = endgame a true in
      let finished = endgame a false in if Iface.had_error a.node then failed else finished

  -- `tstat_app_fn`
  pub run : TstatApp D → TstatApp D
  unfolding start_pull_model await_pull_model update start_push_model await_push_model
  run a =
      let state = Task.get_state (world a.node) k.app_task in
      let pulling = start_pull_model a in
      let pulled = await_pull_model a in
      let updated = update a in
      let pushing = start_push_model a in
      let pushed = await_push_model a in
      if state == state_idle
      then a
      else if state == state_start_pull_model
      then pulling
      else if state == state_await_pull_model
      then pulled
      else if state == state_update_model
      then updated
      else if state == state_start_push_model
      then pushing
      else if state == state_await_push_model
      then pushed
      else a
