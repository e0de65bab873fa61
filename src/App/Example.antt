-- ===== src/App/Example.antt =====
-- A driver, doubles and tasks, on which the tests of model_iface.c and tstat_app.c run.
use toy_tstat.Common.{ℕ, ◌≡◌, refl, Bool, true, false, none, [], ◌∷◌, ◌++◌, arith}
use toy_tstat.Common.Ints.{ℤ, pos, negsuc, eq_ℤ}
use toy_tstat.Common.Chars.{Bytes, show_int}
use toy_tstat.Jems.{Doubles}
use toy_tstat.Mu.Sched.Example.{busy}
use toy_tstat.Mu.Task.{Code}
use toy_tstat.Tstat.Model.{Model, system_mode_heat}
use toy_tstat.Tstat.Dump.Text.{IntsExact, IsStored}
use toy_tstat.App.Coms.{read_error}
use toy_tstat.App.Iface.{Setting, Node}

abbrev pub integers : Doubles
integers = record {
  Double = ℤ;
  of_int = λ z. z;
  to_int64 = λ z. z;
  equal = eq_ℤ;
  show_lf = show_int;
}

eq_ℤ_self : (z : ℤ) → eq_ℤ z z ≡ true
eq_ℤ_self (pos n) = ground arith
eq_ℤ_self (negsuc n) = ground arith

pub integers-IntsExact : IntsExact integers
integers-IntsExact = record { back = λ z _. refl; same = λ z _. eq_ℤ_self z }

abbrev pub code : Code
code = record {
  run_call_hook = λ fn task w. w;
  run_fn = λ fn task arg w. w;
  run_set_state_hook = λ fn task prev state w. w;
}

-- A driver that keeps what is written, with nothing to read; a parser that refuses every text.
abbrev pub setting : Setting Bytes
setting = record {
  usart_read = λ d. none;
  usart_write = λ text len d. (len, d ++ text);
  code = code;
  coms_task = 1;
  coms_fn = 11;
  coms_info = 0;
  iface_task = 2;
  iface_fn = 12;
  iface_info = 0;
  continuation = 0;
  state_start_pull = 3;
  state_await_pull = 4;
  model_request = 63 ∷ 0 ∷ [];
  request_size = 2;
  max_len = 16;
  rx_size = 4;
  recv_completion = 2;
  recv_returned = true;
  endame = λ n e. n;
  jsmn_parse = λ text size. (negsuc 1, []);
  doubles = integers;
}

abbrev pub cold : Model
cold = record {
  ambient = pos 60;
  cool_setpoint = pos 78;
  heat_setpoint = pos 65;
  relay_y = true;
  relay_w = false;
  system_mode = system_mode_heat;
}

pub cold-IsStored : IsStored cold
cold-IsStored = record {
  ambient_int = record { below = omega arith; above = omega arith };
  cool_int = record { below = omega arith; above = omega arith };
  heat_int = record { below = omega arith; above = omega arith };
}

-- A node whose tasks all are in one state, after a reception that failed or not.
abbrev pub node : ℕ → Bool → Bool → Node Bytes
node state receive_failed pull_failed = record {
  self = record { on_completion = 9; had_error = pull_failed; model = cold };
  coms = record {
    self = record {
      on_completion = 2;
      had_error = receive_failed;
      buf = 123 ∷ 125 ∷ 0 ∷ 7 ∷ [];
      capacity = 4;
      bytes_received = 3;
      event = read_error;
    };
    world = record {
      tasks = λ a. record { fn = 1; state = state; user_info = 0 };
      call_hook = 0;
      set_state_hook = 0;
      sched = busy;
    };
    usart = [];
  };
}
