-- ===== src/App/Iface.antt =====
-- model_iface.c: the task that pulls the model from the other side of the serial line, and pushes it
-- there. The source's struct lacks the fields that its functions use; they are here. Names that no file
-- declares, and values that no statement gives, are parameters: the states START_PULL and AWAIT_PULL,
-- MODEL_REQUEST and its size, MAX_LEN, the size of `rx_buf`, the third argument that the call of
-- coms_mgr_recv leaves out, what that function returns without a `return`, and `endame`, which is
-- called where the model has been loaded.
pub mod Pull
pub mod Text
pub mod RoundTrip
mod Tests
use toy_tstat.Common.{
  ℕ, zero, suc, Bool, true, false, not, Option, List, [], ◌∷◌, ◌==◌, if◌then◌else◌, length,
}
use toy_tstat.Common.Ints.{ℤ}
use toy_tstat.Common.Chars.{Bytes}
use toy_tstat.Jems.{Jems, Level, Doubles}
use toy_tstat.Mu.Task
use toy_tstat.Mu.Task.{World, Code}
use toy_tstat.Tstat.Model.{Model}
use toy_tstat.Tstat.Load.{Token, load_json}
use toy_tstat.Tstat.Dump.{WriterState, dump_json}
use toy_tstat.App.TaskInfo.{task_info}
use toy_tstat.App.Coms
use toy_tstat.App.Coms.{ComsMgr}

-- MODEL_IFACE_STATES
abbrev pub state_idle : ℕ
state_idle = 0

abbrev pub state_start_rqst : ℕ
state_start_rqst = 1

abbrev pub state_await_rqst : ℕ
state_await_rqst = 2

-- `model_iface_t`: `model` is what the field points at. The array `rx_buf` is the one that coms_mgr
-- is given, so that its bytes are those of `ComsMgr.buf`.
pub record ModelIface : Type 0 where
  pub on_completion : ℕ
  pub had_error : Bool
  pub model : Model

-- The singleton with those of coms_mgr.c, the tasks and the driver.
pub record Node (D : Type 0) : Type 0 where
  pub self : ModelIface
  pub coms : Coms.System D

abbrev pub world : {D : Type 0} → Node D → World
world n = n.coms.world

abbrev pub with_world : {D : Type 0} → Node D → World → Node D
with_world n w = record n { coms = record n.coms { world = w } }

unfoldable pub had_error : {D : Type 0} → Node D → Bool
had_error n = n.self.had_error

-- The C string in an array: the bytes before the first NUL.
pub cstr : Bytes → Bytes
cstr [] = []
cstr (c ∷ cs) = let rest = cstr cs in if c == 0 then [] else c ∷ rest

-- The driver, the code of hooks and tasks, the addresses of the tasks of coms_mgr.c and model_iface.c
-- with their functions and infos, and the names without a declaration.
pub record Setting (D : Type 0) : Type 1 where
  pub usart_read : D → Option (ℕ × D)
  pub usart_write : Bytes → ℕ → D → ℕ × D
  pub code : Code
  pub coms_task : ℕ
  pub coms_fn : ℕ
  pub coms_info : ℕ
  pub iface_task : ℕ
  pub iface_fn : ℕ
  pub iface_info : ℕ
  pub continuation : ℕ
  pub state_start_pull : ℕ
  pub state_await_pull : ℕ
  pub model_request : Bytes
  pub request_size : ℕ
  pub max_len : ℕ
  pub rx_size : ℕ
  pub recv_completion : ℕ
  pub recv_returned : Bool
  pub endame : Node D → Bool → Node D
  pub jsmn_parse : Bytes → ℕ → ℤ × List Token
  pub doubles : Doubles

module _ {D : Type 0} (g : Setting D) where
  pub init : World → World
  init w =
      Task.write w g.iface_task
        (Task.init (w.tasks g.iface_task) g.iface_fn state_idle g.iface_info)

  -- The model that the pointer names is that of the node. What it returns is not said.
  pub pull : Node D → ℕ → Node D
  pull n on_completion =
      let w = (Task.yield g.code (world n) g.iface_task state_start_rqst).1 in
      with_world
        (record n { self = record n.self { on_completion = on_completion; had_error = false } }) w

  -- `buf`, `levels` and `jems` are local variables of the functions, with what they happen to hold.
  -- The dump answers its buffer, so that the test for NULL never holds.
  unfoldable pub push : Bytes → List Level → Jems WriterState → Node D → Bool × Node D
  push buf levels jems n =
      let text = cstr (dump_json g.doubles levels jems n.self.model buf g.max_len) in
      let (sent, coms) = Coms.send g.usart_write n.coms text (length text) in
      (true, record n { coms = coms })

  pub endgame : Node D → Bool → Node D
  endgame n had_error =
      let w = task_info g.code g.continuation (world n) g.iface_task state_idle had_error in
      let w' = (Task.transfer g.code w g.iface_task state_idle n.self.on_completion).1 in
      with_world (record n { self = record n.self { had_error = had_error } }) w'

  pub start_pull : Node D → Node D
  unfolding endgame
  start_pull n =
      let (sent, coms) = Coms.send g.usart_write n.coms g.model_request g.request_size in
      let coms' =
        Coms.recv g.usart_read g.code g.coms_task g.coms_fn g.coms_info g.continuation coms
          coms.self.buf g.rx_size g.recv_completion in
      let n' = record n { coms = coms' } in
      let failed = endgame n' true in
      let waits = with_world n' (Task.wait g.code (world n') g.iface_task state_await_rqst).1 in
      if not g.recv_returned then failed else waits

  pub await_pull : Node D → Node D
  unfolding endgame
  await_pull n =
      let (loaded, model) = load_json g.jsmn_parse n.self.model (cstr n.coms.self.buf) in
      let n' = record n { self = record n.self { model = model } } in
      let broken = endgame n true in
      let unparsed = endgame n' true in
      let success = g.endame n' false in
      if n.coms.self.had_error then broken else if not loaded then unparsed else success

  -- `model_iface_fn`
  pub run : Node D → Node D
  unfolding start_pull await_pull
  run n =
      let state = Task.get_state (world n) g.iface_task in
      let started = start_pull n in
      let ended = await_pull n in
      if state == state_idle
      then n
      else if state == g.state_start_pull
      then started
      else if state == g.state_await_pull
      then ended
      else n
