-- ===== src/Mu/Deferred/Sorted.antt =====
-- The deferred tasks stay sorted by time across a wrap of the clock, and tasks for the same time run
-- in the order in which they were scheduled.
use toy_tstat.Common.{
  ℕ, suc, ◌≤◌, ◌<◌, ◌≡◌, refl, inl, inr, true, false, List, [], ◌∷◌, ◌++◌, ◌==◌, if◌then◌else◌, All,
  arith, Bool-cases,
}
use toy_tstat.Mu.Time.{follows}
use toy_tstat.Mu.Time.Order.{IsWord, Within, since, follows-since}
use toy_tstat.Mu.Deferred.{Deferred}
use toy_tstat.Mu.Deferred.Order.{insert}

-- Sorted by the distance from `base`.
abbrev pub IsSorted : ℕ → List Deferred → Type 0
IsSorted base [] = Unit
IsSorted base (d ∷ ds) = All (λ e. since base d.at ≤ since base e.at) ds × IsSorted base ds

-- The entries for the time `at`.
pub at_time : ℕ → List Deferred → List Deferred
at_time at [] = []
at_time at (d ∷ ds) = if d.at == at then d ∷ at_time at ds else at_time at ds

module _ (base : ℕ) (d : Deferred) (word : IsWord base) (near : Within base d.at) where
  insert-All :
      (t : ℕ) (ds : List Deferred)
      → t ≤ since base d.at
      → All (λ e. t ≤ since base e.at) ds
      → All (λ e. t ≤ since base e.at) (insert d ds)
  unfolding insert
  insert-All t [] h a = (h, tt)
  insert-All t (e ∷ es) h a = elim (Bool-cases (follows e.at d.at)) [
    | inl q ↦ rw q (h, a)
    | inr q ↦ rw q (a.0, insert-All t es h a.1)
  ]

  All-weaken :
      (t u : ℕ) (ds : List Deferred)
      → t ≤ u
      → All (λ e. u ≤ since base e.at) ds
      → All (λ e. t ≤ since base e.at) ds
  All-weaken t u [] h a = tt
  All-weaken t u (e ∷ es) h a = (omega (arith, a.0), All-weaken t u es h a.1)

  -- A task that is inserted among tasks less than half the clock's range behind `base` keeps them
  -- sorted.
  pub insert-IsSorted :
      (ds : List Deferred)
      → All (λ e. Within base e.at) ds
      → IsSorted base ds
      → IsSorted base (insert d ds)
  unfolding insert
  insert-IsSorted [] w h = (tt, tt)
  insert-IsSorted (e ∷ es) w h = elim (Bool-cases (follows e.at d.at)) [
    | inl q ↦
        let lt : since base d.at < since base e.at =
          ground (arith, follows-since base e.at d.at word w.0 near) in
        rw q (
          (
            omega (arith, lt),
            All-weaken (since base d.at) (since base e.at) es (omega (arith, lt)) h.0,
          ),
          h,
        )
    | inr q ↦
        let le : since base e.at ≤ since base d.at =
          ground (arith, follows-since base e.at d.at word w.0 near) in
        rw q (insert-All (since base e.at) es le h.0, insert-IsSorted es w.1 h.1)
  ]

  none_later :
      (at : ℕ) (ds : List Deferred)
      → (d.at == at) ≡ true
      → All (λ e. since base d.at < since base e.at) ds
      → at_time at ds ≡ []
  unfolding at_time
  none_later at [] same a = refl
  none_later at (e ∷ es) same a =
      let other : (e.at == at) ≡ false = ground arith in rw other (none_later at es same a.1)

  -- Among the tasks for one time the new one comes last; those for other times are as before.
  pub at_time-insert :
      (at : ℕ) (ds : List Deferred)
      → All (λ e. Within base e.at) ds
      → IsSorted base ds
      → at_time at (insert d ds) ≡ (if d.at == at then at_time at ds ++ d ∷ [] else at_time at ds)
  unfolding insert at_time
  at_time-insert at [] w h = refl
  at_time-insert at (e ∷ es) w h = elim (Bool-cases (follows e.at d.at)) [
    | inl q ↦
        let lt : since base d.at < since base e.at =
          ground (arith, follows-since base e.at d.at word w.0 near) in
        rw q (elim (Bool-cases (d.at == at)) [
          | inl same ↦ rw (
            same,
            none_later at (e ∷ es) same
                (lt, All-weaken (suc (since base d.at)) (since base e.at) es lt h.0),
          )
          | inr other ↦ rw other
        ])
    | inr q ↦ rw q (ground (arith, at_time-insert at es w.1 h.1))
  ]
