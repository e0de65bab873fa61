-- ===== src/App/Coms/Machine.antt =====
-- The states of the coms_mgr task.
use toy_tstat.Common.{
  ℕ, ◌+◌, ◌-◌, ◌≤◌, ◌≡◌, refl, sym, ap, ◌∙◌, inl, inr, ◌⊎◌, Bool, true, false, ◌||◌, Option, ◌++◌,
  length, take, ◌==◌, if◌then◌else◌, arith,
}
use mathlib.Core.Path.{subst}
use toy_tstat.Common.Chars.{Bytes}
use toy_tstat.Mu.Task.{Code, get_state}
use toy_tstat.Mu.Task.State.{transfer-get_state, wait-get_state}
use toy_tstat.App.Coms.{
  ComsMgr, Event, read_threshold_reached, read_buffer_full, read_error, write_threshold_reached,
  break_signal_detected, other_event, System, state_idle, state_await_rqst, endgame, wait,
  read_event, read_loop, on_event, run,
}
use toy_tstat.App.Coms.Receive.{IsRing, Received, message, last_or, read_loop_lem}

module _ {D : Type 0} (usart_read : D → Option (ℕ × D)) (code : Code)
    (coms_task coms_fn info continuation : ℕ) where
  endgame-idle :
      (s : System D) (e : Bool)
      → get_state (endgame usart_read code coms_task coms_fn info continuation s e).world coms_task
        ≡ state_idle
  unfolding endgame
  endgame-idle s e = transfer-get_state code _ coms_task state_idle s.self.on_completion

  wait-await :
      (s : System D)
      → get_state (wait usart_read code coms_task coms_fn info continuation s).world coms_task
        ≡ state_await_rqst
  unfolding wait
  wait-await s = wait-get_state code s.world coms_task state_await_rqst

  abbrev ended : System D → Bool → System D
  ended = endgame usart_read code coms_task coms_fn info continuation

  abbrev go_on : System D → System D
  go_on = wait usart_read code coms_task coms_fn info continuation

  -- What the event handler does, by the event.
  abbrev handling : ℕ → System D → Event → System D
  handling ch0 s event = elim event as (λ x. System D) [
    | read_threshold_reached ↦ read_event usart_read code coms_task coms_fn info continuation ch0 s
    | read_buffer_full ↦ read_event usart_read code coms_task coms_fn info continuation ch0 s
    | read_error ↦ ended s true
    | write_threshold_reached ↦ ended s false
    | break_signal_detected ↦ ended s false
    | other_event ↦ s
  ]

  on_event-handling :
      (ch0 : ℕ) (s : System D) (event : Event)
      → s.self.event ≡ event
      → on_event usart_read code coms_task coms_fn info continuation ch0 s ≡ handling ch0 s event
  unfolding on_event
  on_event-handling ch0 s event = ap (handling ch0 s)

  -- While the task waits for bytes, its function handles the event.
  run-event :
      (ch0 : ℕ) (s : System D)
      → get_state s.world coms_task ≡ state_await_rqst
      → run usart_read code coms_task coms_fn info continuation ch0 s
        ≡ on_event usart_read code coms_task coms_fn info continuation ch0 s
  unfolding run
  run-event ch0 s awaits = rw awaits refl

  -- The events by which the driver says that bytes have come.
  abbrev pub IsOfBytes : Event → Type 0
  IsOfBytes event = (event ≡ read_threshold_reached) ⊎ (event ≡ read_buffer_full)

  -- Both are handled by reading.
  on_event-read :
      (ch0 : ℕ) (s : System D)
      → IsOfBytes s.self.event
      → on_event usart_read code coms_task coms_fn info continuation ch0 s
        ≡ read_event usart_read code coms_task coms_fn info continuation ch0 s
  on_event-read ch0 s (inl e) = on_event-handling ch0 s read_threshold_reached e
  on_event-read ch0 s (inr e) = on_event-handling ch0 s read_buffer_full e

  -- What the context, the task and the driver are after an event of new bytes: `got` is what was taken.
  pub record Handled (pending : D → Bytes) (got : Bytes) (complete : Bool) (s s' : System D)
      : Type 0 where
    pub stored :
        take s'.self.bytes_received s'.self.buf ≡ take s.self.bytes_received s.self.buf ++ got
    pub count : s'.self.bytes_received ≡ s.self.bytes_received + length got
    pub same_length : length s'.self.buf ≡ length s.self.buf
    pub same_capacity : s'.self.capacity ≡ s.self.capacity
    pub left : pending s.usart ≡ got ++ pending s'.usart
    pub state : get_state s'.world coms_task ≡ (if complete then state_idle else state_await_rqst)
    pub error : s'.self.had_error ≡ (if complete then false else s.self.had_error)

  module _ {pending : D → Bytes} (ring : IsRing usart_read pending) where
    -- The system after the loop.
    abbrev after : System D → ℕ × ComsMgr × D → System D
    after s (ch, self, usart) = record s { self = self; usart = usart }

    ended-Handled :
        {got : Bytes} {ch0 : ℕ} {s : System D} {r : ℕ × ComsMgr × D}
        → Received ring got ch0 s.self s.usart r
        → Handled pending got true s (ended (after s r) false)
    unfolding endgame
    ended-Handled {s = s} {r = r} v = record {
      stored = v.stored;
      count = v.count;
      same_length = v.same_length;
      same_capacity = v.same_capacity;
      left = v.left;
      state = transfer-get_state code _ coms_task state_idle r.1.on_completion;
      error = refl;
    }

    go_on-Handled :
        {got : Bytes} {ch0 : ℕ} {s : System D} {r : ℕ × ComsMgr × D}
        → Received ring got ch0 s.self s.usart r
        → Handled pending got false s (go_on (after s r))
    unfolding wait
    go_on-Handled {s = s} v = record {
      stored = v.stored;
      count = v.count;
      same_length = v.same_length;
      same_capacity = v.same_capacity;
      left = v.left;
      state = wait-get_state code s.world coms_task state_await_rqst;
      error = v.same_error;
    }

    handled :
        {got : Bytes} {ch0 : ℕ} {s : System D} {r : ℕ × ComsMgr × D}
        → Received ring got ch0 s.self s.usart r
        → (complete : Bool)
        → Handled pending got complete s
            (if complete then ended (after s r) false else go_on (after s r))
    handled v true = ended-Handled v
    handled v false = go_on-Handled v

    read_event-if :
        (ch0 : ℕ) (s : System D)
        → let r =
            read_loop usart_read (s.self.capacity - s.self.bytes_received) ch0 s.self s.usart in
          read_event usart_read code coms_task coms_fn info continuation ch0 s ≡ (
            if r.0 == 0 || r.1.bytes_received == r.1.capacity
            then ended (after s r) false
            else go_on (after s r))
    unfolding read_event
    read_event-if ch0 s = refl

    -- On either event of new bytes, that the threshold is reached or that the driver's buffer is full, with room in the buffer or not: the task takes the rest of the message,
    -- or what there is of it, or what fits, and appends it to the buffer. If the last byte seen (or,
    -- where none was taken, what the local variable held) is NUL, or the buffer is full, the reception
    -- ends without an error; else the task goes on waiting.
    pub run_receives :
        (ch0 : ℕ) (s : System D)
        → get_state s.world coms_task ≡ state_await_rqst
        → IsOfBytes s.self.event
        → s.self.bytes_received ≤ s.self.capacity
        → s.self.capacity ≤ length s.self.buf
        → let got = message (s.self.capacity - s.self.bytes_received) (pending s.usart) in
          Handled pending got
            (last_or ch0 got == 0 || s.self.bytes_received + length got == s.self.capacity)
            s
            (run usart_read code coms_task coms_fn info continuation ch0 s)
    run_receives ch0 s awaits event room fits =
        subst
          (Handled pending got
            (last_or ch0 got == 0 || s.self.bytes_received + length got == s.self.capacity) s)
          (sym (
            run-event ch0 s awaits
            ∙ on_event-read ch0 s event
            ∙ read_event-if ch0 s
            ∙ ap (λ c. if c then ended (after s r) false else go_on (after s r)) complete))
          (handled v
            (last_or ch0 got == 0 || s.self.bytes_received + length got == s.self.capacity))
      where
        free : ℕ
        free = s.self.capacity - s.self.bytes_received

        got : Bytes
        got = message free (pending s.usart)

        r : ℕ × ComsMgr × D
        r = read_loop usart_read free ch0 s.self s.usart

        v : Received ring got ch0 s.self s.usart r
        v = read_loop_lem ring free ch0 s.self s.usart (omega arith) fits

        complete :
            (r.0 == 0 || r.1.bytes_received == r.1.capacity)
            ≡ (last_or ch0 got == 0 || s.self.bytes_received + length got == s.self.capacity)
        complete = rw (v.last, v.count, v.same_capacity) refl

  -- An error of the driver, in whatever state of the reception, ends it with an error.
  pub run_fails :
      (ch0 : ℕ) (s : System D)
      → get_state s.world coms_task ≡ state_await_rqst
      → s.self.event ≡ read_error
      → let s' = run usart_read code coms_task coms_fn info continuation ch0 s in
        (s'.self.had_error ≡ true)
        × (get_state s'.world coms_task ≡ state_idle)
        × (s'.self.buf ≡ s.self.buf)
        × (s'.self.bytes_received ≡ s.self.bytes_received)
  unfolding endgame
  run_fails ch0 s awaits event =
      subst
        (λ s'.
          (s'.self.had_error ≡ true)
          × (get_state s'.world coms_task ≡ state_idle)
          × (s'.self.buf ≡ s.self.buf)
          × (s'.self.bytes_received ≡ s.self.bytes_received))
        (sym (run-event ch0 s awaits ∙ on_event-handling ch0 s read_error event))
        (refl, endgame-idle s true, refl, refl)
