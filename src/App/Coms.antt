-- ===== src/App/Coms.antt =====
-- coms_mgr.c: the task that receives a message from the serial driver, byte by byte. The source's
-- struct lacks the fields that its functions use; they are here. The driver is not in the repository:
-- its state, and what a read and a write do, are parameters.
pub mod Receive
pub mod Machine
pub mod Pieces
pub mod Stream
pub mod Begun
mod Tests
use toy_tstat.Common.{
  ℕ, zero, suc, ◌+◌, ◌-◌, Bool, true, false, not, ◌||◌, Option, none, some, List, ltb, ◌==◌,
  if◌then◌else◌, set,
}
use toy_tstat.Common.Chars.{Bytes}
use toy_tstat.Mu.Deferred.{TaskErr}
use toy_tstat.Mu.Task
use toy_tstat.Mu.Task.{World, Code}
use toy_tstat.App.TaskInfo.{task_info}

-- COMS_MGR_STATES
abbrev pub state_idle : ℕ
state_idle = 0

abbrev pub state_start_rqst : ℕ
state_start_rqst = 1

abbrev pub state_await_rqst : ℕ
state_await_rqst = 2

-- The events of the driver that the source names, and any other.
pub data Event : Type 0 where
  read_threshold_reached read_buffer_full read_error write_threshold_reached : Event
  break_signal_detected other_event : Event

-- `coms_mgr_t`; `buf` is the array that the field points at.
pub record ComsMgr : Type 0 where
  pub on_completion : ℕ
  pub had_error : Bool
  pub buf : Bytes
  pub capacity : ℕ
  pub bytes_received : ℕ
  pub event : Event

pub had_error : ComsMgr → Bool
had_error c = c.had_error

-- The singleton, the tasks and the driver.
pub record System (D : Type 0) : Type 0 where
  pub self : ComsMgr
  pub world : World
  pub usart : D

module _ {D : Type 0} where
  -- `usart_write` answers how many bytes it took. (The source assigns to the answer of the call where
  -- it compares with it.)
  unfoldable pub send : (Bytes → ℕ → D → ℕ × D) → System D → Bytes → ℕ → Bool × System D
  send usart_write s msg msg_len =
      let (taken, usart) = usart_write msg msg_len s.usart in
      (taken == msg_len, record s { usart = usart })

  -- `usart_read` of one byte answers it if there is one.
  module _ (usart_read : D → Option (ℕ × D)) where
    -- The loop of the event handler: what it leaves in `ch`, in the context and in the driver. A round
    -- takes one byte, so that `capacity - bytes_received` rounds are enough.
    pub read_loop : ℕ → ℕ → ComsMgr → D → ℕ × ComsMgr × D
    read_loop zero ch self usart = (ch, self, usart)
    read_loop (suc fuel) ch self usart = elim (ltb self.bytes_received self.capacity) [
      | false ↦ (ch, self, usart)
      | true ↦ elim (usart_read usart) [
        | none ↦ (ch, self, usart)
        | some (byte, usart') ↦
            let self' = record self {
              buf = set self.buf self.bytes_received byte;
              bytes_received = self.bytes_received + 1;
            } in
            let more = read_loop fuel byte self' usart' in
            if byte == 0 then (byte, self', usart') else more
      ]
    ]

    -- The addresses of the task, of its function and of its `task_info_t`, what hooks and functions do,
    -- and the name that task_info.c does not declare.
    module _ (code : Code) (coms_task coms_fn info continuation : ℕ) where
      pub init : World → World
      init w = Task.write w coms_task (Task.init (w.tasks coms_task) coms_fn state_idle info)

      -- What it returns to the caller is not said: the function has no `return`.
      pub recv : System D → Bytes → ℕ → ℕ → System D
      recv s buf capacity on_completion = record s {
        self = record s.self {
          buf = buf;
          capacity = capacity;
          on_completion = on_completion;
          bytes_received = 0;
          had_error = false;
        };
        world = (Task.yield code s.world coms_task state_start_rqst).1;
      }

      pub endgame : System D → Bool → System D
      endgame s had_error =
          let w = task_info code continuation s.world coms_task state_idle had_error in
          record s {
            self = record s.self { had_error = had_error };
            world = (Task.transfer code w coms_task state_idle s.self.on_completion).1;
          }

      pub wait : System D → System D
      wait s = record s { world = (Task.wait code s.world coms_task state_await_rqst).1 }

      -- `ch0` is what the local variable `ch` happens to hold before the loop.
      pub read_event : ℕ → System D → System D
      unfolding read_loop endgame wait
      read_event ch0 s =
          let (ch, self, usart) =
            read_loop (s.self.capacity - s.self.bytes_received) ch0 s.self s.usart in
          let s' = record s { self = self; usart = usart } in
          let done = endgame s' false in
          let more = wait s' in
          if ch == 0 || self.bytes_received == self.capacity then done else more

      pub on_event : ℕ → System D → System D
      unfolding read_event endgame
      on_event ch0 s = elim s.self.event [
        | read_threshold_reached ↦ read_event ch0 s
        | read_buffer_full ↦ read_event ch0 s
        | read_error ↦ endgame s true
        | write_threshold_reached ↦ endgame s false
        | break_signal_detected ↦ endgame s false
        | other_event ↦ s
      ]

      -- `coms_mgr_fn`
      pub run : ℕ → System D → System D
      unfolding on_event wait
      run ch0 s =
          let state = Task.get_state s.world coms_task in
          let waiting = wait s in
          let handled = on_event ch0 s in
          if state == state_idle
          then s
          else if state == state_start_rqst
          then waiting
          else if state == state_await_rqst
          then handled
          else s

      -- `coms_rx_cb`, which the driver calls.
      pub rx_cb : System D → Event → System D
      rx_cb s event = record s {
        self = record s.self { event = event };
        world = (Task.sched_from_isr s.world coms_task).1;
      }
