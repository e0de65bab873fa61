-- ===== src/Mu/Sched/Served.antt =====
-- Tasks of interrupts are served.
use toy_tstat.Common.{
  ℕ, ◌<◌, ◌≡◌, refl, sym, ap, ap₂, ◌∙◌, inl, inr, List, [], ◌∷◌, ◌++◌, append_assoc, append-nil,
  map, length, ◌==◌, Bool-cases, arith,
}
use mathlib.Core.Path.{subst}
use toy_tstat.Mu.Fifo.{offer, offer-room}
use toy_tstat.Mu.Deferred.{Deferred, err_none, max_deferred}
use toy_tstat.Mu.Sched.{Sched}
use toy_tstat.Mu.Sched.Select.{IsValid, Waiting, waiting, pick}
use toy_tstat.Mu.Sched.Session.{
  Call, called, stepped, Outcome, answered, ran, Limits, do_calls, play, list_call, list_step,
  sched_play, list_play,
}
use toy_tstat.Mu.Sched.Promise.{limits, play-Keeps}

-- The lists begin with these interrupt tasks.
record Begins (irqs : List ℕ) (w : Waiting) : Type 0 where
  behind : List ℕ
  others : w.0 ≡ irqs ++ behind

offer-Begins :
    (bound : ℕ) (irqs behind : List ℕ) (x : ℕ)
    → (more : List ℕ) × ((offer bound (irqs ++ behind) x).1 ≡ irqs ++ more)
unfolding offer
offer-Begins bound irqs behind x = elim (Bool-cases (length (irqs ++ behind) == bound)) [
  | inl e ↦ (behind, rw e refl)
  | inr e ↦ (behind ++ x ∷ [], rw e (append_assoc irqs behind (x ∷ [])))
]

list_call-Begins :
    (l : Limits) (irqs : List ℕ) (w : Waiting) (c : Call)
    → Begins irqs w
    → Begins irqs (list_call l w c).1
unfolding list_call
list_call-Begins l irqs w (Call.asap task) b = record { behind = b.behind; others = b.others }
list_call-Begins l irqs w (Call.from_isr task) b =
    let (more, e) = offer-Begins l.irq_bound irqs b.behind task in
    record { behind = more; others = ap (λ xs. (offer l.irq_bound xs task).1) b.others ∙ e }
list_call-Begins l irqs w (Call.remove task) b = record { behind = b.behind; others = b.others }
list_call-Begins l irqs w (Call.defer_until task at) b =
    elim (Bool-cases (length w.1 == max_deferred)) [
      | inl e ↦ rw e (record { behind = b.behind; others = b.others })
      | inr e ↦ rw e (record { behind = b.behind; others = b.others })
    ]

do_calls-Begins :
    (l : Limits) (irqs : List ℕ) (cs : List Call) (w : Waiting)
    → Begins irqs w
    → Begins irqs (do_calls (list_call l) w cs)
unfolding do_calls
do_calls-Begins l irqs [] w b = b
do_calls-Begins l irqs (c ∷ cs) w b =
    do_calls-Begins l irqs cs (list_call l w c).1 (list_call-Begins l irqs w c b)

module _ (script : ℕ → List Call) (l : Limits) where
  pick-head :
      (now task : ℕ) (irqs : List ℕ) (w : Waiting)
      → w.0 ≡ task ∷ irqs
      → pick now l.idle w ≡ (task, (irqs, w.1, w.2))
  unfolding pick
  pick-head now task irqs w e = ap (λ xs. pick now l.idle (xs, w.1, w.2)) e

  list_step-Begins :
      (now task : ℕ) (irqs : List ℕ) (w : Waiting)
      → Begins (task ∷ irqs) w
      → ((list_step script l now w).0 ≡ task) × Begins irqs (list_step script l now w).1
  unfolding list_step
  list_step-Begins now task irqs w b = rw (pick-head now task (irqs ++ b.behind) w b.others) (
    refl,
    elim (Bool-cases (task == 0)) [
      | inl e ↦ rw e (record { behind = b.behind; others = refl })
      | inr e ↦ rw e (
          do_calls-Begins l irqs (script task) (irqs ++ b.behind, w.1, w.2)
            (record { behind = b.behind; others = refl }))
    ],
  )

  list_play-irqs :
      (irqs times : List ℕ) (w : Waiting)
      → length times ≡ length irqs
      → Begins irqs w
      → (list_play script l w (map stepped times)).0 ≡ map ran irqs
  unfolding play
  list_play-irqs [] [] w e b = refl
  list_play-irqs [] (now ∷ times) w e b = absurd (omega arith)
  list_play-irqs (task ∷ irqs) [] w e b = absurd (omega arith)
  list_play-irqs (task ∷ irqs) (now ∷ times) w e b =
      let (first, b') = list_step-Begins now task irqs w b in
      ap₂ (λ (x : ℕ) (xs : List Outcome). ran x ∷ xs) first
        (list_play-irqs irqs times (list_step script l now w).1 (omega arith) b')

-- However many tasks interrupts have scheduled on a valid scheduler, as many steps run just these, in
-- the order in which they were scheduled, whenever the steps are and whatever calls the tasks make: before
-- every deferred task, due or not, and before every task that was to run soon, however long these wait.
pub irqs_served :
    (script : ℕ → List Call) (s : Sched) (times : List ℕ)
    → IsValid s
    → length times ≡ length (waiting s).0
    → (sched_play script s (map stepped times)).0 ≡ map ran (waiting s).0
irqs_served script s times v e =
    (play-Keeps script (map stepped times)
      (record { valid = v; same_limits = refl; same_tasks = refl })).0
    ∙ list_play-irqs script (limits s) (waiting s).0 times (waiting s) e
        (record { behind = []; others = sym (append-nil (waiting s).0) })

module _ (script : ℕ → List Call) (l : Limits) (now a b : ℕ) where
  list_play-overtakes :
      (irqs asaps : List ℕ) (later : List Deferred)
      → irqs ≡ []
      → 0 < l.irq_bound
      → length asaps < l.asap_bound
      → (list_play script l
          (irqs, later, asaps)
          (called (Call.asap a) ∷ called (Call.from_isr b) ∷ stepped now ∷ [])).0
        ≡ answered err_none ∷ answered err_none ∷ ran b ∷ []
  unfolding play list_call list_step pick
  list_play-overtakes irqs asaps later e some_irq room =
      subst
        (λ xs.
          (list_play script l (xs, later, asaps)
            (called (Call.asap a) ∷ called (Call.from_isr b) ∷ stepped now ∷ [])).0
          ≡ answered err_none ∷ answered err_none ∷ ran b ∷ [])
        (sym e)
        (rw (offer-room l.asap_bound asaps a room, offer-room l.irq_bound [] b some_irq) refl)

-- On a valid scheduler with no tasks of interrupts and room for one, and room for one more that is to run
-- soon: if mu_sched_asap schedules a task and mu_sched_from_isr then another, both answer that they have, and
-- the next step runs the latter, whatever it is and whatever else waits or is due.
pub irq_overtakes :
    (script : ℕ → List Call) (s : Sched) (now a b : ℕ)
    → IsValid s
    → (waiting s).0 ≡ []
    → 0 < s.irq_tasks.mask
    → length (waiting s).2 < s.asap_tasks.capacity
    → (sched_play script s (called (Call.asap a) ∷ called (Call.from_isr b) ∷ stepped now ∷ [])).0
      ≡ answered err_none ∷ answered err_none ∷ ran b ∷ []
irq_overtakes script s now a b v e some_irq room =
    (play-Keeps script (called (Call.asap a) ∷ called (Call.from_isr b) ∷ stepped now ∷ [])
      (record { valid = v; same_limits = refl; same_tasks = refl })).0
    ∙ list_play-overtakes script (limits s) now a b (waiting s).0 (waiting s).2 (waiting s).1 e
        some_irq room
