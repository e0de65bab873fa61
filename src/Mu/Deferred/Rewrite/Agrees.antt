-- ===== src/Mu/Deferred/Rewrite/Agrees.antt =====
-- When the two ways to remove a deferred task leave the same.
use toy_tstat.Common.{
  ℕ, zero, suc, ◌+◌, ◌-◌, ◌≤◌, ◌<◌, ◌≡◌, ◌↔◌, refl, sym, ap, ap₂, ◌∙◌, inl, inr, true, false, List,
  [], ◌∷◌, ◌++◌, length, get_or, ◌==◌, if◌then◌else◌, arith, Bool-cases,
}
use toy_tstat.Mu.Deferred.{Deferred, unset, Schedule, err_none, err_not_found, remove}
use toy_tstat.Mu.Deferred.Order.{pending_of, pending, IsValid}
use toy_tstat.Mu.Deferred.Removal.{
  without, without_none, has_task, remove_refines, upper, closed, closed-upper, closed-pending_of,
}
use toy_tstat.Mu.Deferred.Rewrite.{close_at, remove_first_from, remove_first}

-- The entries but for the last one of the task.
unfoldable pub without_last : ℕ → List Deferred → List Deferred
without_last task [] = []
without_last task (d ∷ ds) =
    let rest = without_last task ds in
    if has_task task ds then d ∷ rest else if d.task == task then ds else d ∷ ds

unfoldable pub occurrences : ℕ → List Deferred → ℕ
occurrences task [] = 0
occurrences task (d ∷ ds) = (if d.task == task then 1 else 0) + occurrences task ds

module _ (task : ℕ) where
  has_task-behind :
      (xs : List Deferred) (d : Deferred) (ys : List Deferred)
      → (d.task == task) ≡ true
      → has_task task (xs ++ d ∷ ys) ≡ true
  unfolding has_task
  has_task-behind [] d ys e = rw e refl
  has_task-behind (x ∷ xs) d ys e = elim (Bool-cases (x.task == task)) [
    | inl q ↦ rw q refl
    | inr q ↦ rw q (has_task-behind xs d ys e)
  ]

  without_last-split :
      (xs : List Deferred) (d : Deferred) (ys : List Deferred)
      → (d.task == task) ≡ true
      → has_task task ys ≡ false
      → without_last task (xs ++ d ∷ ys) ≡ xs ++ ys
  unfolding without_last
  without_last-split [] d ys e h = rw (h, e) refl
  without_last-split (x ∷ xs) d ys e h =
      rw (has_task-behind xs d ys e) (ap (λ ds. x ∷ ds) (without_last-split xs d ys e h))

  without_last_none : (ds : List Deferred) → has_task task ds ≡ false → without_last task ds ≡ ds
  unfolding without_last has_task
  without_last_none [] h = refl
  without_last_none (d ∷ ds) h = elim (Bool-cases (d.task == task)) [
    | inl q ↦ let bad : true ≡ false = rw q at h in cc
    | inr q ↦ let rest : has_task task ds ≡ false = rw q at h in rw (rest, q) refl
  ]

  has_task_zero : (ds : List Deferred) → has_task task ds ≡ false → occurrences task ds ≡ 0
  unfolding has_task occurrences
  has_task_zero [] h = refl
  has_task_zero (d ∷ ds) h = ground (arith, h, has_task_zero ds)

  has_task_some : (ds : List Deferred) → has_task task ds ≡ true → 0 < occurrences task ds
  unfolding has_task occurrences
  has_task_some [] h = cc
  has_task_some (d ∷ ds) h = ground (arith, h, has_task_some ds)

  length-without : (ds : List Deferred) → length (without task ds) + occurrences task ds ≡ length ds
  unfolding without occurrences
  length-without [] = refl
  length-without (d ∷ ds) = ground (arith, length-without ds)

  length-without_last :
      (ds : List Deferred) → 0 < occurrences task ds → length (without_last task ds) + 1 ≡ length ds
  unfolding without_last occurrences
  length-without_last [] h = absurd (omega arith)
  length-without_last (d ∷ ds) h = elim (Bool-cases (has_task task ds)) [
    | inl e ↦ rw e (omega (arith, length-without_last ds (has_task_some ds e)))
    | inr e ↦ elim (Bool-cases (d.task == task)) [
      | inl q ↦ rw (e, q) (omega arith)
      | inr q ↦ absurd (ground (arith, h, has_task_zero ds e))
    ]
  ]

  without_once :
      (ds : List Deferred) → occurrences task ds ≤ 1 → without_last task ds ≡ without task ds
  unfolding without_last without occurrences
  without_once [] h = refl
  without_once (d ∷ ds) h = elim (Bool-cases (has_task task ds)) [
    | inl e ↦ elim (Bool-cases (d.task == task)) [
      | inl q ↦ let some_more = has_task_some ds e in absurd (ground (arith, h, some_more))
      | inr q ↦ rw (e, q) (ap (λ es. d ∷ es) (without_once ds (ground (arith, h))))
    ]
    | inr e ↦ rw (e, without_none task ds e) refl
  ]

-- The entries from index `i` up, and those below.
upper-pending_of :
    (tasks : List Deferred) (i k : ℕ)
    → pending_of tasks (k + i) ≡ upper tasks i k ++ pending_of tasks i
upper-pending_of tasks i zero = ap (pending_of tasks) (omega arith)
upper-pending_of tasks i (suc k) =
    ap (pending_of tasks) up
    ∙ ap₂ (λ (j : ℕ) (ds : List Deferred). get_or tasks j unset ∷ ds) (omega arith)
        (upper-pending_of tasks i k)
  where
    up : suc k + i ≡ suc (k + i)
    up = omega arith

pending_at :
    (s : Schedule) (i : ℕ)
    → i < s.count
    → pending s
      ≡ upper s.tasks (suc i) (s.count - suc i) ++ get_or s.tasks i unset ∷ pending_of s.tasks i
pending_at s i h =
    ap (pending_of s.tasks) whole ∙ upper-pending_of s.tasks (suc i) (s.count - suc i)
  where
    whole : s.count ≡ s.count - suc i + suc i
    whole = omega arith

pending-close_at :
    (s : Schedule) (i : ℕ)
    → i < s.count
    → s.count ≤ length s.tasks
    → pending (close_at s i) ≡ upper s.tasks (suc i) (s.count - suc i) ++ pending_of s.tasks i
unfolding close_at closed
pending-close_at s i h fits =
    ap (pending_of (closed s i).tasks) whole
    ∙ upper-pending_of (closed s i).tasks i (s.count - suc i)
    ∙ ap₂ ◌++◌ (closed-upper s i h fits) (closed-pending_of s i h fits)
  where
    whole : s.count - 1 ≡ s.count - suc i + i
    whole = omega arith

-- The loop, when the first `i` entries are of other tasks.
remove_first_from_lem :
    (n i : ℕ) (s : Schedule) (task : ℕ)
    → i + n ≡ s.count
    → s.count ≤ length s.tasks
    → has_task task (pending_of s.tasks i) ≡ false
    → let (err, s') = remove_first_from s task i n in
      (pending s' ≡ without_last task (pending s))
      × (err ≡ (if has_task task (pending s) then err_none else err_not_found))
unfolding remove_first_from has_task
remove_first_from_lem zero i s task e fits none_yet =
    let same : i ≡ s.count = omega arith in
    let none_there = ap (λ k. has_task task (pending_of s.tasks k)) (sym same) ∙ none_yet in
    (
      sym (without_last_none task (pending s) none_there),
      sym (ap (λ b. if b then err_none else err_not_found) none_there),
    )
remove_first_from_lem (suc n) i s task e fits none_yet =
    let d = get_or s.tasks i unset in
    elim (Bool-cases (d.task == task)) [
      | inl q ↦
          let split = pending_at s i (omega arith) in
          let all = upper s.tasks (suc i) (s.count - suc i) in
          rw q (
            pending-close_at s i (omega arith) fits
                ∙ sym (
                    ap (without_last task) split
                    ∙ without_last-split task all d (pending_of s.tasks i) q none_yet),
            sym (
                ap (λ b. if b then err_none else err_not_found)
                  (ap (has_task task) split ∙ has_task-behind task all d (pending_of s.tasks i) q)),
          )
      | inr q ↦ rw q (remove_first_from_lem n (suc i) s task (omega arith) fits (rw q none_yet))
    ]

-- The entry that the other version takes out is the last of the task in the order in which they run.
pub remove_first_lem :
    (s : Schedule) (task : ℕ)
    → IsValid s
    → let (err, s') = remove_first s task in
      (pending s' ≡ without_last task (pending s))
      × (err ≡ (if has_task task (pending s) then err_none else err_not_found))
unfolding remove_first
remove_first_lem s task v =
    remove_first_from_lem s.count 0 s task (omega arith) (omega (arith, v.array_fits, v.count_in))
      (unfold has_task in refl)

at_most_one :
    (task : ℕ) (ds : List Deferred)
    → without_last task ds ≡ without task ds
    → occurrences task ds ≤ 1
at_most_one task ds e = elim (Bool-cases (has_task task ds)) [
  | inl some_there ↦ omega (
    arith,
    ap length e,
    length-without task ds,
    length-without_last task ds (has_task_some task ds some_there),
  )
  | inr none_there ↦ omega (arith, has_task_zero task ds none_there)
]

-- On a valid schedule the version that is switched off answers what the other does, and it leaves the
-- same pending tasks exactly if the task has at most one entry.
pub remove_first_iff :
    (s : Schedule) (task : ℕ)
    → IsValid s
    → let (err, s') = remove_first s task in
      let (err', s'') = remove s task in
      (err ≡ err') × ((pending s' ≡ pending s'') ↔ (occurrences task (pending s) ≤ 1))
remove_first_iff s task v =
    let (left, answer) = remove_first_lem s task v in
    let (left', answer', v') = remove_refines s task v in
    (
      answer ∙ sym answer',
      (
        (λ e. at_most_one task (pending s) (sym left ∙ e ∙ left')),
        λ h. left ∙ without_once task (pending s) h ∙ sym left',
      ),
    )
