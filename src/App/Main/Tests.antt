-- ===== src/App/Main/Tests.antt =====
-- Runs of the task on a cold house whose mode is to heat.
use toy_tstat.Common.{refl, true, false, [], ◌∷◌, replicate, take, arith}
use toy_tstat.Common.Chars.{Bytes}
use toy_tstat.Jems.{unset}
use toy_tstat.Mu.Task
use toy_tstat.Mu.Task.{World, get_state}
use toy_tstat.Tstat.Logic.{update_model}
use toy_tstat.Tstat.Dump.Text.{dump_text}
use toy_tstat.App.Example.{code, setting, cold, cold-IsStored, integers-IntsExact, node}
use toy_tstat.App.Main.{TstatApp, Names, run}
use toy_tstat.App.Main.Cycle.{Pushed, update_pushes}

abbrev names : Names
names = record {
  app_task = 5;
  app_fn = 15;
  app_info = 0;
  state_start = 6;
  state_start_update_model = 7;
  state_done = 8;
  pull_returned = true;
  info_endgame = λ w task state failed next. (Task.transfer code w task state next).1;
  buf = replicate 16 1;
  levels = unset ∷ unset ∷ unset ∷ [];
  jems = record {
    levels = [];
    max_level = 0;
    curr_level = 0;
    arg = record { buf = []; buflen = 0; written = 0 };
  };
}

-- The application in the state UPDATE_MODEL.
abbrev updating : TstatApp Bytes
updating = record { on_completion = 0; had_error = false; node = node 3 false false }

update_pushes_example :
    Pushed setting names
      (update_model cold)
      (take 15 (dump_text (update_model cold)))
      updating
      (run setting names (run setting names updating))
unfolding get_state
update_pushes_example =
    update_pushes setting names updating unset unset unset refl refl integers-IntsExact
      cold-IsStored (omega arith) (omega arith) (omega arith)
