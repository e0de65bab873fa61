-- ===== src/App/TaskInfo/Trace.antt =====
-- What the call hook logs of a run.
use toy_tstat.Common.{
  ℕ, ◌≡◌, refl, ap, ◌∙◌, inl, inr, true, false, not, ◌&&◌, none, some, List, [], ◌∷◌, ◌==◌,
  if◌then◌else◌, Bool-cases,
}
use toy_tstat.Mu.Task.{World}
use toy_tstat.App.TaskInfo.{Info, Line, Tracker, task_name, call_hook}

-- The calls that are a change from the task before, the idle task not counted.
pub changes : ℕ → ℕ → List ℕ → List (ℕ × ℕ)
changes idle prev [] = []
changes idle prev (t ∷ ts) =
    if t == idle
    then changes idle prev ts
    else if t == prev
    then changes idle prev ts
    else (prev, t) ∷ changes idle t ts

module _ (info : ℕ → Info) (idle : ℕ) (w : World) where
  pub line : ℕ × ℕ → Line
  line (a, b) = record {
    task = none;
    from = some (task_name info w a);
    to = some (task_name info w b);
  }

  pub lines_onto : List (ℕ × ℕ) → List Line → List Line
  lines_onto [] ls = ls
  lines_onto (c ∷ cs) ls = lines_onto cs (line c ∷ ls)

  pub hook_all : List ℕ → Tracker → Tracker
  hook_all [] t = t
  hook_all (task ∷ tasks) t = hook_all tasks (call_hook info true idle w task t)

  call_hook-kept :
      (task : ℕ) (t : Tracker)
      → (not (task == idle) && not (task == t.prev_task)) ≡ false
      → call_hook info true idle w task t ≡ t
  unfolding call_hook
  call_hook-kept task t e = rw e

  call_hook-change :
      (task : ℕ) (t : Tracker)
      → (not (task == idle) && not (task == t.prev_task)) ≡ true
      → call_hook info true idle w task t
        ≡ record { prev_task = task; lines = line (t.prev_task, task) ∷ t.lines }
  unfolding call_hook line
  call_hook-change task t e = rw e

  -- While the log reports DEBUG, the lines of a run of task calls are the changes from one task to
  -- another, in order, where the idle task does not count.
  pub hook_all-lines :
      (tasks : List ℕ) (t : Tracker)
      → (hook_all tasks t).lines ≡ lines_onto (changes idle t.prev_task tasks) t.lines
  unfolding hook_all lines_onto changes
  hook_all-lines [] t = refl
  hook_all-lines (task ∷ tasks) t = elim (Bool-cases (task == idle)) [
    | inl e ↦
        ap (λ r. (hook_all tasks r).lines) (call_hook-kept task t (rw e))
        ∙ rw e (hook_all-lines tasks t)
    | inr e ↦ elim (Bool-cases (task == t.prev_task)) [
      | inl q ↦
          ap (λ r. (hook_all tasks r).lines) (call_hook-kept task t (rw (e, q)))
          ∙ rw (e, q) (hook_all-lines tasks t)
      | inr q ↦
          ap (λ r. (hook_all tasks r).lines) (call_hook-change task t (rw (e, q)))
          ∙ rw (e, q)
              (hook_all-lines tasks
                (record { prev_task = task; lines = line (t.prev_task, task) ∷ t.lines }))
    ]
  ]
