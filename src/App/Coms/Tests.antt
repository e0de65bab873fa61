-- ===== src/App/Coms/Tests.antt =====
-- Seven bytes wait in the driver; two of a message are in the buffer already.
use toy_tstat.Common.{
  ℕ, ◌+◌, ◌≡◌, refl, inr, false, ◌||◌, Option, none, some, List, [], ◌∷◌, ◌++◌, take, ◌==◌, length,
  replicate, arith,
}
use toy_tstat.Common.Chars.{Bytes, codes}
use toy_tstat.Mu.Sched.Example.{busy}
use toy_tstat.Mu.Task.{World, Code, get_state}
use toy_tstat.App.Coms.{System, read_buffer_full, state_idle, state_await_rqst, run, recv}
use toy_tstat.App.Coms.Receive.{IsRing, message, last_or}
use toy_tstat.App.Coms.Stream.{run_once, receive, play}
use toy_tstat.App.Coms.Begun.{recv-play-Received}
use toy_tstat.App.Coms.Machine.{Handled, run_receives}

abbrev read : Bytes → Option (ℕ × Bytes)
read [] = none
read (c ∷ cs) = some (c, cs)

-- The bytes that wait are the driver's state.
abbrev pending : Bytes → Bytes
pending d = d

read-next : (d : Bytes) (c : ℕ) (d' : Bytes) → read d ≡ some (c, d') → d ≡ c ∷ d'
read-next [] c d' e = cc
read-next (x ∷ xs) c d' e = cc

read-empty : (d : Bytes) → read d ≡ none → d ≡ []
read-empty [] e = refl
read-empty (x ∷ xs) e = cc

read-IsRing : IsRing read pending
read-IsRing = record { empty = read-empty; next = read-next }

abbrev code : Code
code = record {
  run_call_hook = λ fn task w. w;
  run_fn = λ fn task arg w. w;
  run_set_state_hook = λ fn task prev state w. w;
}

abbrev world : World
world = record {
  tasks = λ a. record { fn = 1; state = state_await_rqst; user_info = 0 };
  call_hook = 0;
  set_state_hook = 0;
  sched = busy;
}

abbrev receiving : System Bytes
receiving = record {
  self = record {
    on_completion = 5;
    had_error = false;
    buf = 97 ∷ 98 ∷ replicate 6 1;
    capacity = 8;
    bytes_received = 2;
    event = read_buffer_full;
  };
  world = world;
  usart = 99 ∷ 100 ∷ 0 ∷ 101 ∷ [];
}

receive_example :
    Handled read code 3 1 0 0 pending
      (message 6 (99 ∷ 100 ∷ 0 ∷ 101 ∷ []))
      (last_or 7 (message 6 (99 ∷ 100 ∷ 0 ∷ 101 ∷ [])) == 0
        || 2 + length (message 6 (99 ∷ 100 ∷ 0 ∷ 101 ∷ [])) == 8)
      receiving
      (run read code 3 1 0 0 7 receiving)
unfolding get_state
receive_example =
    run_receives read code 3 1 0 0 read-IsRing 7 receiving refl (inr refl) (omega arith)
      (omega arith)

-- The driver's ring takes bytes at its end.
abbrev arrive : Bytes → Bytes → Bytes
arrive bytes d = d ++ bytes

abbrev quiet : System Bytes
quiet = record receiving { usart = [] }

abbrev two_pieces : List (ℕ × Bytes)
two_pieces = (7, codes "ab") ∷ (0, codes "c") ∷ []

abbrev delivered : System Bytes
delivered = receive read code 3 1 0 0 arrive 9 (codes "d" ++ 0 ∷ []) (
    play read code 3 1 0 0 arrive two_pieces
      (run_once read code 3 1 0 0 4 (recv read code 3 1 0 0 quiet (replicate 6 1) 6 5)))

stream_example :
    (take delivered.self.bytes_received delivered.self.buf ≡ codes "abcd" ++ 0 ∷ [])
    × (get_state delivered.world 3 ≡ state_idle)
    × (delivered.self.had_error ≡ false)
    × (pending delivered.usart ≡ [])
stream_example =
    recv-play-Received read code 3 1 0 0 arrive read-IsRing (λ bytes d. refl) 4 quiet
      (replicate 6 1) 6 5 two_pieces 9 (codes "d") refl (omega arith) (omega arith) (ground arith)
      (ground arith)
