-- ===== src/Mu/Deferred/Order.antt =====
-- `sched_aux` keeps the deferred tasks in the order in which they will run, and a task for a time
-- that is taken goes behind those already there.
use toy_tstat.Common.{
  ℕ, zero, suc, ◌+◌, ◌-◌, ◌≤◌, ◌<◌, ◌≡◌, refl, sym, ap, ap₂, ◌∙◌, ◌⊎◌, inl, inr, true, List, [],
  ◌∷◌, length, length-set, get_or, get_or-set_self, get_or-set_ne, ltb, ltb→lt, ==_iff, ==_ne,
  if◌then◌else◌, arith, ℕ_discrete, Bool-cases, lt→ltb,
}
use toy_tstat.Common.Memmove.{memmove, length-memmove, get_or-memmove_before, get_or-memmove_copied}
use toy_tstat.Mu.Time.{precedes, follows}
use toy_tstat.Mu.Deferred.{
  Deferred, unset, max_deferred, Schedule, err_none, err_sched_full, insertion_point, insert_at,
  sched_aux, fetch_runnable,
}

-- The first `n` tasks of the array, in the order in which they run.
abbrev pub pending_of : List Deferred → ℕ → List Deferred
pending_of tasks zero = []
pending_of tasks (suc n) = get_or tasks n unset ∷ pending_of tasks n

abbrev pub pending : Schedule → List Deferred
pending s = pending_of s.tasks s.count

-- Stable insertion by time.
unfoldable pub insert : Deferred → List Deferred → List Deferred
insert d [] = d ∷ []
insert d (e ∷ es) = if follows e.at d.at then d ∷ e ∷ es else e ∷ insert d es

-- The soonest task, if the clock has reached its time, and the tasks left.
unfoldable pub due : ℕ → List Deferred → ℕ × List Deferred
due now [] = (0, [])
due now (d ∷ ds) = if precedes now d.at then (0, d ∷ ds) else (d.task, ds)

pub record IsValid (s : Schedule) : Type 0 where
  pub array_fits : max_deferred ≤ length s.tasks
  pub count_in : s.count ≤ max_deferred

pub insertion_point-le : (tasks : List Deferred) (at n : ℕ) → insertion_point tasks at n ≤ n
unfolding insertion_point
insertion_point-le tasks at zero = omega arith
insertion_point-le tasks at (suc n) = ground (arith, insertion_point-le tasks at n)

module _ (s : Schedule) (i : ℕ) (d : Deferred) (in_range : i ≤ s.count)
    (room : s.count < length s.tasks) where
  -- What `insert_at` leaves in the array: below `i` all as before,
  insert_at_before :
      (j : ℕ) → j < i → get_or (insert_at s i d).tasks j unset ≡ get_or s.tasks j unset
  unfolding insert_at
  insert_at_before j h = elim (Bool-cases (ltb 0 (s.count - i))) [
    | inl e ↦ rw e (
        get_or-set_ne _ i j d unset (λ q. omega arith)
        ∙ get_or-memmove_before s.tasks (i + 1) i (s.count - i) j unset (omega arith) (omega arith))
    | inr e ↦ rw e (get_or-set_ne _ i j d unset (λ q. omega arith))
  ]

  -- the new task at `i`,
  insert_at_new : get_or (insert_at s i d).tasks i unset ≡ d
  unfolding insert_at
  insert_at_new = elim (Bool-cases (ltb 0 (s.count - i))) [
    | inl e ↦ rw e (
        get_or-set_self _ i d unset (
          omega
            (arith, length-memmove s.tasks (i + 1) i (s.count - i) (omega arith) (omega arith))))
    | inr e ↦ rw e (get_or-set_self _ i d unset (omega arith))
  ]

  -- and the others one place further up.
  insert_at_after :
      (j : ℕ)
      → i ≤ j
      → j < s.count
      → get_or (insert_at s i d).tasks (suc j) unset ≡ get_or s.tasks j unset
  unfolding insert_at
  insert_at_after j h below =
      let open_slot : ltb 0 (s.count - i) ≡ true = lt→ltb 0 (s.count - i) (omega arith) in
      rw open_slot (
        get_or-set_ne _ i (suc j) d unset (λ q. omega arith)
        ∙ get_or-memmove_copied s.tasks (i + 1) i (s.count - i) (j - i) (suc j) unset (omega arith)
            (omega arith) (omega arith) (omega arith)
        ∙ ap (λ k. get_or s.tasks k unset) back)
    where
      back : i + (j - i) ≡ j
      back = omega arith

  pending_before : (n : ℕ) → n ≤ i → pending_of (insert_at s i d).tasks n ≡ pending_of s.tasks n
  pending_before zero h = refl
  pending_before (suc n) h =
      ap₂ ◌∷◌ (insert_at_before n (omega arith)) (pending_before n (omega arith))

module _ (s : Schedule) (d : Deferred) (room : s.count < length s.tasks) where
  -- `n` tasks are searched; those above them have been passed already.
  pending_insert :
      (i n : ℕ) (in_range : i ≤ s.count)
      → i ≡ insertion_point s.tasks d.at n
      → n ≤ s.count
      → pending_of (insert_at s i d).tasks (suc n) ≡ insert d (pending_of s.tasks n)
  unfolding insert insertion_point
  pending_insert i zero in_range e h = ap (λ x. x ∷ []) (new_at 0 (sym e))
    where
      new_at : (k : ℕ) → k ≡ i → get_or (insert_at s i d).tasks k unset ≡ d
      new_at k q =
          ap (λ m. get_or (insert_at s i d).tasks m unset) q ∙ insert_at_new s i d in_range room
  pending_insert i (suc n) in_range e h =
      elim (Bool-cases (follows (get_or s.tasks n unset).at d.at)) [
        | inl later ↦
            let here : i ≡ suc n = e ∙ rw later in
            rw later (
              ap₂ ◌∷◌
                (ap (λ m. get_or (insert_at s i d).tasks m unset) (sym here)
                  ∙ insert_at_new s i d in_range room)
                (pending_before s i d in_range room (suc n) (omega arith)))
        | inr sooner ↦
            let further : i ≡ insertion_point s.tasks d.at n = e ∙ rw sooner in
            rw sooner (
              ap₂ ◌∷◌
                (insert_at_after s i d in_range room n
                  (omega (arith, insertion_point-le s.tasks d.at n)) h)
                (pending_insert i n in_range further (omega arith)))
      ]

insert_at-IsValid :
    (s : Schedule) (i : ℕ) (d : Deferred)
    → IsValid s
    → i ≤ s.count
    → s.count < max_deferred
    → IsValid (insert_at s i d)
unfolding insert_at
insert_at-IsValid s i d v h room = ground (
  arith,
  length-set s.tasks i d,
  length-set (memmove s.tasks (i + 1) i (s.count - i)) i d,
  length-memmove s.tasks (i + 1) i (s.count - i),
)

pending-insert_at :
    (s : Schedule) (d : Deferred)
    → IsValid s
    → s.count < max_deferred
    → pending (insert_at s (insertion_point s.tasks d.at s.count) d) ≡ insert d (pending s)
pending-insert_at s d v room =
    ap (pending_of (insert_at s i d).tasks) grown
    ∙ pending_insert s d (omega (arith, v.array_fits)) i s.count
        (insertion_point-le s.tasks d.at s.count) refl (omega arith)
  where
    i : ℕ
    i = insertion_point s.tasks d.at s.count

    grown : (insert_at s i d).count ≡ suc s.count
    grown = unfold insert_at in omega arith

-- `sched_aux` refuses a task only when all slots are in use, and changes nothing then. Otherwise
-- the pending tasks are those before with the new one inserted behind all that do not follow it.
pub sched_aux_refines :
    (s : Schedule) (task at : ℕ)
    → IsValid s
    → let (err, s') = sched_aux s task at in
      IsValid s'
      × (((s.count ≡ max_deferred) × (err ≡ err_sched_full) × (s' ≡ s))
          ⊎ ((s.count < max_deferred)
              × (err ≡ err_none)
              × (pending s' ≡ insert (record { at = at; task = task }) (pending s))))
unfolding sched_aux
sched_aux_refines s task at v = elim (ℕ_discrete s.count max_deferred) [
  | yes full ↦ rw ((==_iff s.count max_deferred).1 full) (v, inl (full, refl, refl))
  | no free ↦
      let room : s.count < max_deferred = omega (arith, v.count_in) in
      rw (==_ne s.count max_deferred free) (
        insert_at-IsValid s _ _ v (insertion_point-le s.tasks at s.count) room,
        inr (room, refl, pending-insert_at s (record { at = at; task = task }) v room),
      )
]

pub pending_of_pos :
    (tasks : List Deferred) (n : ℕ)
    → 0 < n
    → pending_of tasks n ≡ get_or tasks (n - 1) unset ∷ pending_of tasks (n - 1)
pending_of_pos tasks zero h = absurd (omega arith)
pending_of_pos tasks (suc n) h =
    let same : n ≡ suc n - 1 = omega arith in
    ap (λ k. get_or tasks k unset ∷ pending_of tasks k) same

-- `mu_sched_step` takes the soonest deferred task once its time has come, and only then.
pub fetch_runnable_refines :
    (s : Schedule) (now : ℕ)
    → IsValid s
    → let (task, s') = fetch_runnable s now in
      IsValid s' × ((task, pending s') ≡ due now (pending s))
unfolding fetch_runnable due
fetch_runnable_refines s now v = elim (Bool-cases (ltb 0 s.count)) [
  | inl some_left ↦
      let split = pending_of_pos s.tasks s.count (ltb→lt 0 s.count some_left) in
      elim (Bool-cases (precedes now (get_or s.tasks (s.count - 1) unset).at)) [
        | inl early ↦
            rw (some_left, fetch_runnable)
              (rw early (
                v,
                sym (
                    ap (due now) split
                    ∙ rw early (ap (λ (ds : List Deferred). (0, ds)) (sym split))),
              ))
        | inr late ↦
            rw (some_left, fetch_runnable)
              (rw late (omega arith, sym (ap (due now) split ∙ rw late)))
      ]
  | inr none_left ↦
      let empty : s.count ≡ 0 = ground arith in
      rw (none_left, fetch_runnable)
        (
          v,
          ap (λ (n : ℕ). (0, pending_of s.tasks n)) empty
              ∙ sym (ap (λ n. due now (pending_of s.tasks n)) empty),
        )
]
