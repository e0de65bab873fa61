-- ===== src/App/Main/Cycle.antt =====
-- The states of the task of tstat_app.c.
use toy_tstat.Common.{
  ℕ, ◌-◌, ◌^◌, ◌<◌, ◌≤◌, ◌≡◌, refl, sym, ap, ◌∙◌, Bool, true, [], ◌∷◌, length, take,
}
use mathlib.Core.Path.{subst}
use toy_tstat.Common.Chars.{Bytes}
use toy_tstat.Common.Ints.{IsInt32}
use toy_tstat.Jems.{Level}
use toy_tstat.Mu.Task.{World, get_state}
use toy_tstat.Mu.Task.State.{wait-get_state, yield-get_state}
use toy_tstat.Tstat.Model.{Model}
use toy_tstat.Tstat.Logic.{update_model}
use toy_tstat.Tstat.Logic.Control.{update_model_frame}
use toy_tstat.Tstat.Dump.{dump_json}
use toy_tstat.Tstat.Dump.Text.{IntsExact, IsStored, dump_text}
use toy_tstat.App.Coms.{send}
use toy_tstat.App.Iface as Iface
use toy_tstat.App.Iface.{Setting, Node, world, push, cstr}
use toy_tstat.App.Iface.Text.{cstr-dump_json}
use toy_tstat.App.Main.{
  TstatApp, Names, state_idle, state_await_pull_model, state_update_model, state_start_push_model,
  state_await_push_model, endgame, await_pull_model, update, start_push_model, run,
}

-- The update changes no number.
update_model-IsStored : (m : Model) → IsStored m → IsStored (update_model m)
update_model-IsStored m v =
    let (ambient, cool, heat, mode, same) = update_model_frame m in
    record {
      ambient_int = subst IsInt32 (sym ambient) v.ambient_int;
      cool_int = subst IsInt32 (sym cool) v.cool_int;
      heat_int = subst IsInt32 (sym heat) v.heat_int;
    }

module _ {D : Type 0} (g : Setting D) (k : Names) where
  run-await_pull :
      (a : TstatApp D)
      → get_state (world a.node) k.app_task ≡ state_await_pull_model
      → run g k a ≡ await_pull_model g k a
  unfolding run
  run-await_pull a e = rw e refl

  run-update :
      (a : TstatApp D)
      → get_state (world a.node) k.app_task ≡ state_update_model
      → run g k a ≡ update g k a
  unfolding run
  run-update a e = rw e refl

  run-start_push :
      (a : TstatApp D)
      → get_state (world a.node) k.app_task ≡ state_start_push_model
      → run g k a ≡ start_push_model g k a
  unfolding run
  run-start_push a e = rw e refl

  -- What two runs from the state UPDATE_MODEL do.
  pub record Pushed (model : Model) (text : Bytes) (a a' : TstatApp D) : Type 0 where
    pub updated : a'.node.self.model ≡ model
    pub sent : a'.node.coms.usart ≡ (g.usart_write text (length text) a.node.coms.usart).1
    pub awaits : get_state (world a'.node) k.app_task ≡ state_await_push_model
    pub same_error : a'.had_error ≡ a.had_error

  start_push-Pushed :
      (a : TstatApp D) (text : Bytes)
      → cstr (dump_json g.doubles k.levels k.jems a.node.self.model k.buf g.max_len) ≡ text
      → Pushed a.node.self.model text a (start_push_model g k a)
  unfolding start_push_model push send
  start_push-Pushed a text e = record {
    updated = refl;
    sent = ap (λ t. (g.usart_write t (length t) a.node.coms.usart).1) e;
    awaits = wait-get_state g.code (world a.node) k.app_task state_await_push_model;
    same_error = refl;
  }

  update-yields :
      (a : TstatApp D)
      → let a' = update g k a in
        (a'.node.self.model ≡ update_model a.node.self.model)
        × (a'.node.coms.usart ≡ a.node.coms.usart)
        × (a'.had_error ≡ a.had_error)
        × (get_state (world a'.node) k.app_task ≡ state_start_push_model)
  unfolding update
  update-yields a =
      (refl, refl, refl, yield-get_state g.code (world a.node) k.app_task state_start_push_model)

  -- From UPDATE_MODEL, two runs of the task update the model and send its JSON, or the first
  -- `MAX_LEN - 1` bytes of it if it is longer, in one write to the driver. The task then is in
  -- AWAIT_PUSH_MODEL, with its error as before. The numbers of the model are values of `int`, `double` is
  -- exact on those, there are three levels, and the array that is dumped to has MAX_LEN bytes, not none.
  pub update_pushes :
      (a : TstatApp D) (l0 l1 l2 : Level)
      → get_state (world a.node) k.app_task ≡ state_update_model
      → k.levels ≡ l0 ∷ l1 ∷ l2 ∷ []
      → IntsExact g.doubles
      → IsStored a.node.self.model
      → 0 < g.max_len
      → g.max_len ≤ length k.buf
      → g.max_len < 2 ^ 64
      → let model = update_model a.node.self.model in
        Pushed model (take (g.max_len - 1) (dump_text model)) a (run g k (run g k a))
  update_pushes a l0 l1 l2 e levels exact v room fits small =
      let a1 = update g k a in
      let (model, usart, error, pushes) = update-yields a in
      let stored = subst IsStored (sym model) (update_model-IsStored a.node.self.model v) in
      let text = take (g.max_len - 1) (dump_text (update_model a.node.self.model)) in
      let dumped =
        ap (λ ls. cstr (dump_json g.doubles ls k.jems a1.node.self.model k.buf g.max_len)) levels
        ∙ cstr-dump_json g.doubles l0 l1 l2 k.jems a1.node.self.model k.buf g.max_len exact stored
            room fits small
        ∙ ap (λ m. take (g.max_len - 1) (dump_text m)) model in
      let pushed = start_push-Pushed a1 text dumped in
      subst (Pushed (update_model a.node.self.model) text a)
        (sym (ap (run g k) (run-update a e) ∙ run-start_push a1 pushes))
        (record {
          updated = pushed.updated ∙ model;
          sent = pushed.sent ∙ ap (λ u. (g.usart_write text (length text) u).1) usart;
          awaits = pushed.awaits;
          same_error = pushed.same_error ∙ error;
        })

  endgame-state :
      ((w : World) (task state : ℕ) (failed : Bool) (next : ℕ)
        → get_state (k.info_endgame w task state failed next) task ≡ state)
      → (a : TstatApp D) (failed : Bool)
      → let a' = endgame g k a failed in
        (a'.had_error ≡ failed)
        × (a'.node.self.model ≡ a.node.self.model)
        × (a'.node.coms.usart ≡ a.node.coms.usart)
        × (get_state (world a'.node) k.app_task ≡ state_idle)
  unfolding endgame
  endgame-state ends a failed =
      (refl, refl, refl, ends (world a.node) k.app_task state_idle failed a.on_completion)

  await_pull-failed :
      (a : TstatApp D) → Iface.had_error a.node ≡ true → await_pull_model g k a ≡ endgame g k a true
  unfolding await_pull_model
  await_pull-failed a failed = rw failed refl

  -- Where the pull has failed, the task, in AWAIT_PULL_MODEL, keeps the model, writes nothing to the
  -- driver, sets its error and ends in IDLE, if `task_info_endgame` puts the task into the terminal
  -- state it is given.
  pub failed_pull_ends :
      (a : TstatApp D)
      → ((w : World) (task state : ℕ) (failed : Bool) (next : ℕ)
          → get_state (k.info_endgame w task state failed next) task ≡ state)
      → get_state (world a.node) k.app_task ≡ state_await_pull_model
      → Iface.had_error a.node ≡ true
      → let a' = run g k a in
        (a'.had_error ≡ true)
        × (a'.node.self.model ≡ a.node.self.model)
        × (a'.node.coms.usart ≡ a.node.coms.usart)
        × (get_state (world a'.node) k.app_task ≡ state_idle)
  failed_pull_ends a ends e failed =
      subst
        (λ a'.
          (a'.had_error ≡ true)
          × (a'.node.self.model ≡ a.node.self.model)
          × (a'.node.coms.usart ≡ a.node.coms.usart)
          × (get_state (world a'.node) k.app_task ≡ state_idle))
        (sym (run-await_pull a e ∙ await_pull-failed a failed)) (endgame-state ends a true)
