-- ===== src/App/Iface/Pull.antt =====
-- How a pull of the model ends, and that it does not begin.
use toy_tstat.Common.{
  ℕ, ◌≡◌, ◌≢◌, refl, sym, Bool, true, false, not, ◌||◌, ==_ne, ==_self, if◌then◌else◌,
}
use mathlib.Core.Path.{subst}
use toy_tstat.Mu.Task.{get_state}
use toy_tstat.Mu.Task.State.{transfer-get_state, yield-get_state}
use toy_tstat.Tstat.Model.{Model}
use toy_tstat.Tstat.Load.{load_json}
use toy_tstat.App.Iface.{
  Setting, Node, world, cstr, state_idle, state_start_rqst, endgame, await_pull, pull, run,
}

module _ {D : Type 0} (g : Setting D) where
  -- How the task stands when its work has ended.
  pub record Ended (n : Node D) (model : Model) (failed : Bool) : Type 0 where
    pub model_is : n.self.model ≡ model
    pub error_is : n.self.had_error ≡ failed
    pub idle : get_state (world n) g.iface_task ≡ state_idle

  endgame-Ended : (n : Node D) (e : Bool) → Ended (endgame g n e) n.self.model e
  unfolding endgame
  endgame-Ended n e = record {
    model_is = refl;
    error_is = refl;
    idle = transfer-get_state g.code _ g.iface_task state_idle n.self.on_completion;
  }

  -- The function that is called as `endame` ends the task as `endgame` does.
  abbrev pub EndsGame : Type 0
  EndsGame = (n : Node D) (e : Bool) → g.endame n e ≡ endgame g n e

  endame-Ended : EndsGame → (n : Node D) (e : Bool) → Ended (g.endame n e) n.self.model e
  endame-Ended ends n e = subst (λ m. Ended m n.self.model e) (sym (ends n e)) (endgame-Ended n e)

  -- Of three ends, the one that two tests choose.
  chosen :
      {broken unparsed success : Node D} {kept model : Model}
      → Ended broken kept true
      → Ended unparsed model true
      → Ended success model false
      → (error loaded : Bool)
      → Ended
          (if error then broken else if not loaded then unparsed else success)
          (if error then kept else model)
          (error || not loaded)
  chosen b u s true loaded = b
  chosen b u s false false = u
  chosen b u s false true = s

  await_pull-Ended :
      EndsGame
      → (n : Node D)
      → let (loaded, model) = load_json g.jsmn_parse n.self.model (cstr n.coms.self.buf) in
        Ended
          (await_pull g n)
          (if n.coms.self.had_error then n.self.model else model)
          (n.coms.self.had_error || not loaded)
  unfolding await_pull
  await_pull-Ended ends n =
      let (loaded, model) = load_json g.jsmn_parse n.self.model (cstr n.coms.self.buf) in
      let n' : Node D = record n { self = record n.self { model = model } } in
      chosen (endgame-Ended n true) (endgame-Ended n' true) (endame-Ended ends n' false)
        n.coms.self.had_error loaded

  -- When the response has come, in a state AWAIT_PULL that is neither IDLE nor START_PULL, and if the
  -- undeclared `endame` ends the task as `endgame` does: the work ends
  -- with the task idle. If the reception failed, the model is as before and the error is set. Else the
  -- model is what loading the text in the buffer leaves, with the error set if the load failed.
  pub pull_ends :
      EndsGame
      → (n : Node D) → g.state_await_pull ≢ state_idle
      → g.state_await_pull ≢ g.state_start_pull
      → get_state (world n) g.iface_task ≡ g.state_await_pull
      → let (loaded, model) = load_json g.jsmn_parse n.self.model (cstr n.coms.self.buf) in
        Ended
          (run g n)
          (if n.coms.self.had_error then n.self.model else model)
          (n.coms.self.had_error || not loaded)
  unfolding run
  pull_ends ends n busy later awaits =
      rw (awaits, ==_ne _ _ busy, ==_ne _ _ later, ==_self g.state_await_pull)
        (await_pull-Ended ends n)

  -- `model_iface_pull` puts the task into START_RQST. Where that is none of the states that the
  -- `switch` has a case for, the run that it schedules changes nothing: no request is sent.
  pub pull_stalls :
      (n : Node D) (on_completion : ℕ)
      → g.state_start_pull ≢ state_start_rqst
      → g.state_await_pull ≢ state_start_rqst
      → let n' = pull g n on_completion in
        (get_state (world n') g.iface_task ≡ state_start_rqst) × (run g n' ≡ n')
  unfolding run pull
  pull_stalls n on_completion start await =
      let e = yield-get_state g.code (world n) g.iface_task state_start_rqst in
      (
        e,
        rw
            (
              e,
              ==_ne _ _ (λ (q : state_start_rqst ≡ g.state_start_pull). start (sym q)),
              ==_ne _ _ (λ (q : state_start_rqst ≡ g.state_await_pull). await (sym q)),
            )
            refl,
      )
