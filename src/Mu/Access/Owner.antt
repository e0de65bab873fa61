-- ===== src/Mu/Access/Owner.antt =====
-- The owner and those that wait are different tasks, and nobody waits while nobody owns.
use toy_tstat.Common.{
  ℕ, ◌≡◌, ◌≢◌, refl, sym, ap, ◌∙◌, inl, inr, true, false, List, [], ◌∷◌, ◌++◌, ◌==◌, ==_iff,
  Bool-cases,
}
use mathlib.Core.Path.{subst}
use toy_tstat.Mu.Links.Chain.{NotIn, NoDup, NotIn-snoc, NoDup-snoc}
use toy_tstat.Mu.Links.Search.{member, remove, NotIn-remove}
use toy_tstat.Mu.Access.{
  Pqueue, Laws, polled, AccessMgr, task_call, request_ownership, release_ownership,
}

member-NotIn : (x : ℕ) (xs : List ℕ) → member x xs ≡ false → NotIn x xs
unfolding member
member-NotIn x [] e = tt
member-NotIn x (y ∷ ys) e = elim (Bool-cases (y == x)) [
  | inl q ↦ let bad : true ≡ false = rw q at e in cc
  | inr q ↦
      let rest : member x ys ≡ false = rw q at e in
      (
        (λ p. let bad : true ≡ false = sym ((==_iff y x).1 (sym p)) ∙ q in cc),
        member-NotIn x ys rest,
      )
]

ne_of : {x y : ℕ} → (x == y) ≡ false → x ≢ y
ne_of {x} {y} q e = let bad : true ≡ false = sym ((==_iff x y).1 e) ∙ q in cc

NoDup-remove : (x : ℕ) (xs : List ℕ) → NoDup xs → NoDup (remove x xs)
unfolding remove
NoDup-remove x [] d = tt
NoDup-remove x (y ∷ ys) d = elim (Bool-cases (y == x)) [
  | inl q ↦ rw q d.1
  | inr q ↦ rw q (NotIn-remove y x ys d.0, NoDup-remove x ys d.1)
]

-- The owner, or NULL, and the tasks that wait: all different, and none waits for nobody.
pub record IsOrderly (owner : ℕ) (xs : List ℕ) : Type 0 where
  pub unowned : owner ≡ 0 → xs ≡ []
  pub apart : NotIn owner xs
  pub distinct : NoDup xs
  pub tasks : NotIn 0 xs

-- The first of those that wait takes over.
pub IsOrderly-next :
    {owner : ℕ} (xs : List ℕ)
    → IsOrderly owner xs
    → let (next, rest) = polled xs in IsOrderly next rest
IsOrderly-next [] r = record { unowned = λ e. refl; apart = tt; distinct = tt; tasks = tt }
IsOrderly-next (x ∷ xs) r = record {
  unowned = λ e. absurd (r.tasks.0 (sym e));
  apart = r.distinct.0;
  distinct = r.distinct.1;
  tasks = r.tasks.1;
}

IsOrderly-remove :
    {owner : ℕ} {xs : List ℕ} (x : ℕ) → IsOrderly owner xs → IsOrderly owner (remove x xs)
unfolding remove
IsOrderly-remove {owner} {xs} x r = record {
  unowned = λ e. ap (remove x) (r.unowned e);
  apart = NotIn-remove owner x xs r.apart;
  distinct = NoDup-remove x xs r.distinct;
  tasks = NotIn-remove 0 x xs r.tasks;
}

IsOrderly-wait :
    {owner : ℕ} {xs : List ℕ} (x : ℕ)
    → owner ≢ 0
    → owner ≢ x
    → x ≢ 0
    → member x xs ≡ false
    → IsOrderly owner xs
    → IsOrderly owner (xs ++ x ∷ [])
IsOrderly-wait {owner} {xs} x owned other task new r = record {
  unowned = λ e. absurd (owned e);
  apart = NotIn-snoc owner xs x r.apart other;
  distinct = NoDup-snoc xs x r.distinct (member-NotIn x xs new);
  tasks = NotIn-snoc 0 xs x r.tasks (λ e. task (sym e));
}

module _ {P : Type 0} {o : Pqueue P} {items : P → List ℕ} (laws : Laws o items)
    (invoke : ℕ → AccessMgr P → AccessMgr P) where
  abbrev pub IsValid : AccessMgr P → Type 0
  IsValid m = IsOrderly m.owner (items m.pending)

  -- The function of a task keeps the manager valid.
  abbrev pub IsCareful : Type 0
  IsCareful = (task : ℕ) (m : AccessMgr P) → IsValid m → IsValid (invoke task m)

  task_call-IsValid :
      IsCareful → (task : ℕ) (m : AccessMgr P) → IsValid m → IsValid (task_call o invoke task m)
  unfolding task_call
  task_call-IsValid careful task m v = elim (Bool-cases (task == 0)) [
    | inl e ↦ rw e v
    | inr e ↦ rw e (careful task m v)
  ]

  granted-IsValid :
      (m : AccessMgr P) (task : ℕ)
      → m.owner ≡ 0
      → task ≢ 0
      → IsValid m
      → IsValid (record m { owner = task })
  granted-IsValid m task free some v =
      let empty = v.unowned free in
      record {
        unowned = λ e. absurd (some e);
        apart = subst (NotIn task) (sym empty) tt;
        distinct = v.distinct;
        tasks = v.tasks;
      }

  put-IsValid :
      (m : AccessMgr P) (task : ℕ)
      → m.owner ≢ 0
      → m.owner ≢ task
      → task ≢ 0
      → o.contains m.pending task ≡ false
      → IsValid m
      → IsValid (record m { pending = (o.put m.pending task).1 })
  put-IsValid m task owned other some new v = elim (Bool-cases (o.put m.pending task).0) [
    | inl e ↦
        subst (IsOrderly m.owner) (sym (laws.put_behind m.pending task ∙ rw e refl))
          (IsOrderly-wait task owned other some (sym (laws.contains_member m.pending task) ∙ new) v)
    | inr e ↦ subst (IsOrderly m.owner) (sym (laws.put_behind m.pending task ∙ rw e refl)) v
  ]

  -- `mu_access_mgr_request_ownership` by a task, and what the task that it calls does where it is granted.
  request-IsValid :
      IsCareful
      → (m : AccessMgr P) (task : ℕ) → task ≢ 0
      → IsValid m
      → IsValid (request_ownership o invoke m task).1
  unfolding request_ownership
  request-IsValid careful m task some v = elim (Bool-cases (m.owner == 0)) [
    | inl free ↦ rw free (
        task_call-IsValid careful task (record m { owner = task })
          (granted-IsValid m task ((==_iff m.owner 0).0 free) some v))
    | inr owned ↦ elim (Bool-cases (m.owner == task)) [
      | inl same ↦ rw (owned, same) v
      | inr other ↦ elim (Bool-cases (o.contains m.pending task)) [
        | inl waits ↦ rw (owned, other, waits) v
        | inr new ↦
            let w = put-IsValid m task (ne_of owned) (ne_of other) some new v in
            elim (Bool-cases (o.put m.pending task).0) [
              | inl done ↦ rw (owned, other, new, done) w
              | inr full ↦ rw (owned, other, new, full) w
            ]
      ]
    ]
  ]

  -- `mu_access_mgr_release_ownership` by the owner or by one that waits, or not.
  release-IsValid :
      IsCareful
      → (m : AccessMgr P) (task : ℕ) → IsValid m
      → IsValid (release_ownership o invoke m task).1
  unfolding release_ownership
  release-IsValid careful m task v = elim (Bool-cases (task == m.owner)) [
    | inl owns ↦
        let (next, waiting) = o.get m.pending in
        rw owns (
          task_call-IsValid careful next (record { owner = next; pending = waiting })
            (subst (λ (q : ℕ × List ℕ). IsOrderly q.0 q.1) (sym (laws.get_oldest m.pending))
              (IsOrderly-next (items m.pending) v)))
    | inr other ↦
        let left =
          subst (IsOrderly m.owner) (sym (laws.delete_member m.pending task).1)
            (IsOrderly-remove task v) in
        elim (Bool-cases (o.delete m.pending task).0) [
          | inl found ↦ rw (other, found) left
          | inr absent ↦ rw (other, absent) left
        ]
  ]

  -- Where the owner does not wait, no task waits twice, none is NULL and none waits for nobody, and the
  -- functions of tasks keep it so: so it is after a request by a task and after a release, whatever these
  -- answer.
  pub access_in_order :
      IsCareful
      → (m : AccessMgr P) (task : ℕ) → task ≢ 0
      → IsValid m
      → IsValid (request_ownership o invoke m task).1
        × IsValid (release_ownership o invoke m task).1
  access_in_order careful m task some v =
      (request-IsValid careful m task some v, release-IsValid careful m task v)
