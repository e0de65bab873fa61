-- ===== src/Lib.antt =====
-- The firmware of a thermostat, as in rdpoor/toy-tstat: its control logic, its state as JSON, and the
-- run-to-completion scheduler on which its tasks run. Paths are from the root of the repository.
--
-- Parts and files
-- - Tstat.Model, .Load, .Dump: src/tstat_model.c and .h. The state of the thermostat is the record
--   `Model`. `Tstat.Load.load_json` is tstat_model_load_json over the tokens of jsmn, and
--   `Tstat.Dump.dump_json` is tstat_model_dump_json, which writes through jems into a buffer.
-- - Tstat.Logic: src/tstat_logic.c. The source calls the accessors by the names model_*, which the
--   repository has as tstat_model_*; they are taken to be these.
-- - Jems: src/jems.c. The writer is a parameter that changes a state, the argument it is given.
--   Jems.Tree is a client: the calls that serialize a whole value.
-- - Mu: the library in src/mulib. Mu.Spsc is mu_spsc.c (the queue from interrupts), Mu.Mqueue is
--   mu_mqueue.c, Mu.Time and its child Millis are mu_time.c, Mu.Deferred and Mu.Sched are mu_sched.c,
--   Mu.Task is mu_task.c and Mu.Timer is mu_timer.c: tasks and timers pass themselves to the scheduler,
--   which holds a queue of each kind and an array of deferred tasks. Mu.Str is mu_str.c, with its parser
--   of URLs in Mu.Str.Url, and Mu.Log is mu_log.c. Mu.Timer.Stepped is a timer under steps
--   of the scheduler. Mu.Fifo and Mu.Ring are what both queues are compared
--   with. Mu.Sched.Session is the scheduler under programs of calls and steps, Mu.Spsc.Observed the queue
--   as a client sees it, Mu.Spsc.Interleaved the accesses of a put and a get in any order.
--   Mu.Links, Mu.Queue, Mu.Access and Mu.Periodic are mu_list.c, mu_queue.c, mu_access_mgr.c and
--   mu_periodic.c of its folder laboratory: the first two over a memory of `next` fields, the third over
--   an interface of the queue mu_pqueue, which the repository does not have.
--   One function here stands for one function of the source and has its name, without the prefix of
--   its file; a part of a function that has a lemma of its own has a name too.
-- - App: the application. App.TaskInfo is src/task_info.c (names of tasks and hooks that log them),
--   App.Coms is src/coms_mgr.c (reception of a message from the serial driver), App.Iface is
--   src/model_iface.c (a pull and a push of the model over it) and App.Main is src/tstat_app.c (pull, update,
--   push). These files do not compile: what they use and no file declares is a parameter.
-- - Common: C's strings, arrays, memmove, printed integers and machine integers.
--
-- Numbers. Pointers and tasks are numbers, NULL is 0. size_t is taken to have 64 bits and times have
-- 64 bits: their arithmetic is written modulo 2 ^ 64. An `int` is an integer, with its range as a
-- hypothesis (`IsInt32`) where it matters. The searches of mu_str.c count in ints: an overflow is no
-- result there. A double is a parameter (`Jems.Doubles`), and the theorems on the dump suppose that
-- doubles hold every int (`IntsExact`), as those of IEEE 754 do. An array is a list; a read or write
-- out of its range would be undefined behaviour in C, and the invariants (`IsValid`) and the
-- theorems on the dump rule it out.
--
-- Loops are recursive on what they go through. `digits` has its number as its fuel, which is enough
-- since a tenth is left at each round. The walks of mu_list.c have a number of rounds, which the theorems
-- suppose to be more than the elements; the loop of coms_mgr.c has as many as bytes fit.
--
-- From outside: the parser of jsmn (a library copied into src, by another author), what a clock
-- function returns, what the functions of tasks, hooks and the logging function do, the serial driver,
-- and the queue mu_pqueue are parameters.
--
-- Not modelled: the conversions of durations to seconds (which are not compiled), the formatting of log
-- lines, and interrupts between the steps of one call, but for those of the queue mu_spsc.c.
pub mod Common
pub mod Mu
pub mod Jems
pub mod Tstat
pub mod App
