-- ===== src/Mu/Deferred/Removal.antt =====
-- `mu_sched_remove_deferred_task` removes every entry of a task, and keeps the others in order.
use toy_tstat.Common.{
  ℕ, zero, suc, ◌+◌, ◌-◌, ◌≤◌, ◌<◌, ◌≡◌, refl, sym, ap, ap₂, ◌∙◌, inl, inr, Bool, true, false, ◌||◌,
  List, [], ◌∷◌, ◌++◌, append_assoc, append-nil, length, get_or, ltb, ◌==◌, if◌then◌else◌, arith,
  Bool-cases,
}
use toy_tstat.Common.Memmove.{memmove, length-memmove, get_or-memmove_before, get_or-memmove_copied}
use toy_tstat.Mu.Deferred.{
  Deferred, unset, Schedule, TaskErr, err_none, err_not_found, remove_at, remove_from, remove,
}
use toy_tstat.Mu.Deferred.Order.{pending_of, pending, IsValid}

-- The entries of other tasks.
unfoldable pub without : ℕ → List Deferred → List Deferred
without task [] = []
without task (d ∷ ds) = if d.task == task then without task ds else d ∷ without task ds

unfoldable pub has_task : ℕ → List Deferred → Bool
has_task task [] = false
has_task task (d ∷ ds) = d.task == task || has_task task ds

pub without_none : (task : ℕ) (ds : List Deferred) → has_task task ds ≡ false → without task ds ≡ ds
unfolding has_task without
without_none task [] h = refl
without_none task (d ∷ ds) h = elim (Bool-cases (d.task == task)) [
  | inl e ↦ let bad : true ≡ false = rw e at h in cc
  | inr e ↦ rw e (
      let rest : has_task task ds ≡ false = rw e at h in
      ap (λ (es : List Deferred). d ∷ es) (without_none task ds rest))
]

-- The `n` entries from index `lo` up, the topmost first.
abbrev pub upper : List Deferred → ℕ → ℕ → List Deferred
upper tasks lo zero = []
upper tasks lo (suc n) = get_or tasks (lo + n) unset ∷ upper tasks lo n

upper-suc :
    (tasks : List Deferred) (lo n : ℕ)
    → upper tasks lo (suc n) ≡ upper tasks (suc lo) n ++ get_or tasks lo unset ∷ []
upper-suc tasks lo zero = ap (λ k. get_or tasks k unset ∷ []) (omega arith)
upper-suc tasks lo (suc n) =
    ap₂ (λ (k : ℕ) (ds : List Deferred). get_or tasks k unset ∷ ds) (omega arith)
      (upper-suc tasks lo n)

-- Closing the slot at `i` by the `n` entries above it.
module _ (tasks : List Deferred) (i n : ℕ) (fits : suc i + n ≤ length tasks) where
  upper-memmove : (k : ℕ) → k ≤ n → upper (memmove tasks i (suc i) n) i k ≡ upper tasks (suc i) k
  upper-memmove zero h = refl
  upper-memmove (suc k) h =
      ap₂ ◌∷◌
        (get_or-memmove_copied tasks i (suc i) n k (i + k) unset (omega arith) fits (omega arith)
          refl)
        (upper-memmove k (omega arith))

  pending_of-memmove :
      (k : ℕ) → k ≤ i → pending_of (memmove tasks i (suc i) n) k ≡ pending_of tasks k
  pending_of-memmove zero h = refl
  pending_of-memmove (suc k) h =
      ap₂ ◌∷◌ (get_or-memmove_before tasks i (suc i) n k unset (omega arith) (omega arith))
        (pending_of-memmove k (omega arith))

unfoldable pub closed : Schedule → ℕ → Schedule
closed s i = record {
  tasks = if ltb 0 (s.count - suc i) then memmove s.tasks i (suc i) (s.count - suc i) else s.tasks;
  count = s.count - 1;
}

module _ (s : Schedule) (i : ℕ) (used : i < s.count) (fits : s.count ≤ length s.tasks) where
  pub closed-upper :
      upper (closed s i).tasks i (s.count - suc i) ≡ upper s.tasks (suc i) (s.count - suc i)
  unfolding closed
  closed-upper = elim (Bool-cases (ltb 0 (s.count - suc i))) [
    | inl e ↦ rw e (upper-memmove s.tasks i (s.count - suc i) (omega arith) _ (omega arith))
    | inr e ↦ let none_above : s.count - suc i ≡ 0 = ground arith in rw e (rw none_above)
  ]

  pub closed-pending_of : pending_of (closed s i).tasks i ≡ pending_of s.tasks i
  unfolding closed
  closed-pending_of = elim (Bool-cases (ltb 0 (s.count - suc i))) [
    | inl e ↦ rw e (pending_of-memmove s.tasks i (s.count - suc i) (omega arith) i (omega arith))
    | inr e ↦ rw e
  ]

  closed-length : length (closed s i).tasks ≡ length s.tasks
  unfolding closed
  closed-length = elim (Bool-cases (ltb 0 (s.count - suc i))) [
    | inl e ↦ rw e (length-memmove s.tasks i (suc i) (s.count - suc i) (omega arith) (omega arith))
    | inr e ↦ rw e
  ]

  closed-count : (closed s i).count - i ≡ s.count - suc i
  unfolding closed
  closed-count = omega arith

  closed-le : (closed s i).count ≤ s.count
  unfolding closed
  closed-le = omega arith

  closed-lt : i ≤ (closed s i).count
  unfolding closed
  closed-lt = omega arith

upper-zero : (tasks : List Deferred) (n : ℕ) → upper tasks 0 n ≡ pending_of tasks n
upper-zero tasks zero = refl
upper-zero tasks (suc n) =
    ap₂ (λ (k : ℕ) (ds : List Deferred). get_or tasks k unset ∷ ds) (omega arith)
      (upper-zero tasks n)

remove_at-found :
    (s : Schedule) (task i : ℕ)
    → ((get_or s.tasks i unset).task == task) ≡ true
    → remove_at s task i ≡ (true, closed s i)
unfolding remove_at closed
remove_at-found s task i e = rw e

remove_at-other :
    (s : Schedule) (task i : ℕ)
    → ((get_or s.tasks i unset).task == task) ≡ false
    → remove_at s task i ≡ (false, s)
unfolding remove_at
remove_at-other s task i e = rw e

-- What the loop does to a schedule whose entries from `i` up it has gone through.
record Removed (s : Schedule) (task i : ℕ) (err : TaskErr) (r : TaskErr × Schedule) : Type 0 where
  left : pending r.1 ≡ upper s.tasks i (s.count - i) ++ without task (pending_of s.tasks i)
  answer : r.0 ≡ (if has_task task (pending_of s.tasks i) then err_none else err)
  array : length r.1.tasks ≡ length s.tasks
  fewer : r.1.count ≤ s.count

if_same : (b : Bool) (e : TaskErr) → (if b then e else e) ≡ e
if_same true e = refl
if_same false e = refl

module _ (s : Schedule) (task i : ℕ) (err : TaskErr) (used : i < s.count)
    (fits : s.count ≤ length s.tasks) where
  step_found :
      ((get_or s.tasks i unset).task == task) ≡ true
      → {r : TaskErr × Schedule} → Removed (closed s i) task i err_none r
      → Removed s task (suc i) err r
  unfolding without has_task
  step_found e {r} h = record {
    left = rw e (
        h.left
        ∙ ap₂ (λ (n : ℕ) (ds : List Deferred). upper (closed s i).tasks i n ++ without task ds)
            (closed-count s i used fits) (closed-pending_of s i used fits)
        ∙ ap (λ ds. ds ++ without task (pending_of s.tasks i)) (closed-upper s i used fits));
    answer = rw e (h.answer ∙ if_same (has_task task (pending_of (closed s i).tasks i)) err_none);
    array = h.array ∙ closed-length s i used fits;
    fewer = omega (arith, h.fewer, closed-le s i used fits);
  }

  step_other :
      ((get_or s.tasks i unset).task == task) ≡ false
      → {r : TaskErr × Schedule} → Removed s task i err r
      → Removed s task (suc i) err r
  unfolding without has_task
  step_other e {r} h = record {
    left = rw e (
        h.left
        ∙ ap (λ n. upper s.tasks i n ++ without task (pending_of s.tasks i)) one_more
        ∙ ap (λ ds. ds ++ without task (pending_of s.tasks i))
            (upper-suc s.tasks i (s.count - suc i))
        ∙ append_assoc (upper s.tasks (suc i) (s.count - suc i)) (get_or s.tasks i unset ∷ []) _);
    answer = rw e h.answer;
    array = h.array;
    fewer = h.fewer;
  }
    where
      one_more : s.count - i ≡ suc (s.count - suc i)
      one_more = omega arith

Removed-none : (s : Schedule) (task : ℕ) (err : TaskErr) → Removed s task 0 err (err, s)
unfolding without has_task
Removed-none s task err = record {
  left = sym (append-nil _ ∙ ap (upper s.tasks 0) all_of_them ∙ upper-zero s.tasks s.count);
  answer = refl;
  array = refl;
  fewer = omega arith;
}
  where
    all_of_them : s.count - 0 ≡ s.count
    all_of_them = omega arith

remove_from-Removed :
    (i : ℕ) (s : Schedule) (task : ℕ) (err : TaskErr)
    → i ≤ s.count
    → s.count ≤ length s.tasks
    → Removed s task i err (remove_from s task i err)
unfolding remove_from
remove_from-Removed zero s task err h fits = Removed-none s task err
remove_from-Removed (suc i) s task err h fits =
    elim (Bool-cases ((get_or s.tasks i unset).task == task)) [
      | inl found ↦ rw (remove_at-found s task i found) (
          step_found s task i err h fits found (
            remove_from-Removed i (closed s i) task err_none (closed-lt s i h fits)
              (omega (arith, closed-length s i h fits, closed-le s i h fits))))
      | inr other ↦ rw (remove_at-other s task i other) (
          step_other s task i err h fits other
            (remove_from-Removed i s task err (omega arith) fits))
    ]

-- After `mu_sched_remove_deferred_task` the pending tasks are those of other tasks, in order; it
-- answers MU_TASK_ERR_NONE exactly if an entry of the task was there.
pub remove_refines :
    (s : Schedule) (task : ℕ)
    → IsValid s
    → let (err, s') = remove s task in
      (pending s' ≡ without task (pending s))
      × (err ≡ (if has_task task (pending s) then err_none else err_not_found))
      × IsValid s'
unfolding remove
remove_refines s task v =
    let r =
      remove_from-Removed s.count s task err_not_found (omega arith)
        (omega (arith, v.count_in, v.array_fits)) in
    let none_above : s.count - s.count ≡ 0 = omega arith in
    (
      r.left ∙ ap (λ n. upper s.tasks s.count n ++ without task (pending s)) none_above,
      r.answer,
      record {
        array_fits = omega (arith, r.array, v.array_fits);
        count_in = omega (arith, r.fewer, v.count_in);
      },
    )
