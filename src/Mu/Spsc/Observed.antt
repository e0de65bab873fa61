-- ===== src/Mu/Spsc/Observed.antt =====
-- What calls can observe of a valid queue.
use toy_tstat.Common.{
  ℕ, suc, ◌+◌, ◌-◌, ◌^◌, ◌≤◌, ◌<◌, ◌≡◌, refl, sym, ap, ap₂, ◌∙◌, ◌↔◌, Option, none, some, List, [],
  ◌∷◌, ◌++◌, append-nil, append_assoc, replicate, length-replicate, length, length-append, drop,
  arith,
}
use mathlib.Core.Equiv.{IsEquiv, Iso, iso_to_equiv}
use mathlib.Core.HLevel.{Σ_prop_path}
use mathlib.Core.Quot
use mathlib.Core.Quot.{Quot, Quot-set}
use native.Mathlib.Bridge.{le_prop}
use toy_tstat.Mu.Fifo.{Op, Reply, offer-room}
use toy_tstat.Mu.Fifo
use toy_tstat.Mu.Spsc.{Spsc, err_none, init, put}
use toy_tstat.Mu.Spsc.Inv.{IsValid, init_accepts, initialised, init-IsValid, put-IsValid}
use toy_tstat.Mu.Spsc.Refine.{
  contents, length-contents, gap-le, contents_start, run, run_refines, put_refines, mask-put,
}

-- The number of items that a queue of `2 ^ (bits + 1)` places holds.
abbrev pub most : ℕ → ℕ
most bits = 2 ^ suc bits - 1

pub record Queue (bits : ℕ) : Type 0 where
  pub queue : Spsc
  pub valid : IsValid queue
  pub sized : queue.mask ≡ most bits

-- No sequence of calls tells the one from the other.
abbrev pub Alike : (bits : ℕ) → Queue bits → Queue bits → Type 0
Alike bits a b = (ops : List Op) → run a.queue ops ≡ run b.queue ops

abbrev pub Observed : ℕ → Type 0
Observed bits = Quot (Alike bits)

abbrev pub Bounded : ℕ → Type 0
Bounded bits = (xs : List ℕ) × (length xs ≤ most bits)

Bounded-ext : (bits : ℕ) (a b : Bounded bits) → a.0 ≡ b.0 → a ≡ b
Bounded-ext bits a b h = Σ_prop_path (λ xs. le_prop) h

Bounded-set : (bits : ℕ) → IsSet (Bounded bits)
Bounded-set bits = hlevel (le_prop)

abbrev out_of : List Reply → Option ℕ
out_of [] = none
out_of (r ∷ rs) = r.1

abbrev or_zero : Option ℕ → ℕ
or_zero none = 0
or_zero (some x) = x

-- Two lists that answer all calls alike are the same.
same_list :
    (bound : ℕ) (xs ys : List ℕ)
    → ((ops : List Op) → Fifo.run bound xs ops ≡ Fifo.run bound ys ops)
    → xs ≡ ys
unfolding Fifo.run Fifo.poll
same_list bound [] [] h = refl
same_list bound [] (y ∷ ys) h = let bad = ap out_of (h (Op.get ∷ [])) in cc
same_list bound (x ∷ xs) [] h = let bad = ap out_of (h (Op.get ∷ [])) in cc
same_list bound (x ∷ xs) (y ∷ ys) h =
    ap₂ ◌∷◌ (ap (λ r. or_zero (out_of r)) (h (Op.get ∷ [])))
      (same_list bound xs ys (λ ops. ap (drop 1) (h (Op.get ∷ ops))))

-- The memory of a queue before `mu_spsc_init`.
abbrev raw : Spsc
raw = record { mask = 0; head = 0; tail = 0; store = [] }

module _ (bits : ℕ) where
  Alike-contents : (a b : Queue bits) → Alike bits a b ↔ (contents a.queue ≡ contents b.queue)
  Alike-contents a b = (
    (λ h. same_list (most bits) _ _ (λ ops. sym (answers a ops) ∙ h ops ∙ answers b ops)),
    (λ e ops. answers a ops ∙ ap (λ xs. Fifo.run (most bits) xs ops) e ∙ sym (answers b ops)),
  )
    where
      answers :
          (c : Queue bits) (ops : List Op)
          → run c.queue ops ≡ Fifo.run (most bits) (contents c.queue) ops
      answers c ops = run_refines ops c.valid ∙ ap (λ m. Fifo.run m (contents c.queue) ops) c.sized

  abbrev bounded : Queue bits → Bounded bits
  bounded a = (
    contents a.queue,
    omega (arith, length-contents a.queue, gap-le a.valid.head_in a.valid.tail_in, a.sized),
  )

  -- The items of a queue, of which calls observe no more.
  pub held : Observed bits → Bounded bits
  held =
      Quot.lift (Bounded-set bits) bounded
        (λ a b h. Bounded-ext bits (bounded a) (bounded b) ((Alike-contents a b).0 h))

  -- The store.
  abbrev places : List ℕ
  places = replicate (2 ^ suc bits) 0

  accepts : (init raw places (2 ^ suc bits)).0 ≡ err_none
  accepts = (init_accepts raw places (2 ^ suc bits)).1 (bits, refl)

  prepared : let q = (init raw places (2 ^ suc bits)).1 in IsValid q × (q.head ≡ q.tail)
  prepared =
      init-IsValid raw places (2 ^ suc bits)
        (omega (arith, length-replicate {A = ℕ} (2 ^ suc bits) 0)) accepts

  -- A queue fresh from `mu_spsc_init`.
  abbrev fresh : Queue bits
  fresh = record {
    queue = (init raw places (2 ^ suc bits)).1;
    valid = prepared.0;
    sized = ap (λ q. q.mask) (initialised raw places (2 ^ suc bits) accepts);
  }

  fresh-empty : contents fresh.queue ≡ []
  fresh-empty = contents_start prepared.0 prepared.1

  -- The queue after these are put.
  abbrev fill : Queue bits → List ℕ → Queue bits
  fill a [] = a
  fill a (x ∷ xs) =
      fill
        (record {
          queue = (put a.queue x).1;
          valid = put-IsValid x a.valid;
          sized = mask-put a.queue x ∙ a.sized;
        })
        xs

  contents-put :
      (a : Queue bits) (x : ℕ)
      → length (contents a.queue) < most bits
      → contents (put a.queue x).1 ≡ contents a.queue ++ x ∷ []
  contents-put a x h =
      ap (λ r. r.1)
        (put_refines x a.valid
          ∙ offer-room a.queue.mask (contents a.queue) x (omega (arith, a.sized)))

  contents-fill :
      (xs : List ℕ) (a : Queue bits)
      → length (contents a.queue) + length xs ≤ most bits
      → contents (fill a xs).queue ≡ contents a.queue ++ xs
  contents-fill [] a h = sym (append-nil _)
  contents-fill (x ∷ xs) a h =
      let after = contents-put a x (omega arith) in
      contents-fill xs _ (omega (arith, ap length after, length-append (contents a.queue) (x ∷ [])))
      ∙ ap (λ ys. ys ++ xs) after
      ∙ append_assoc (contents a.queue) (x ∷ []) xs

  filled : (xs : List ℕ) → length xs ≤ most bits → contents (fill fresh xs).queue ≡ xs
  filled xs h =
      contents-fill xs fresh (omega (arith, ap length fresh-empty))
      ∙ ap (λ ys. ys ++ xs) fresh-empty

  -- Up to what calls can observe, the valid queues of `2 ^ (bits + 1)` places are the lists of at most one
  -- item less: `held`, which takes a queue to its items, is an equivalence.
  pub held-IsEquiv : IsEquiv held
  unfolding held
  held-IsEquiv = (iso_to_equiv equivalence).1
    where
      equivalence : Iso (Observed bits) (Bounded bits)
      equivalence = record {
        fun = held;
        inv = λ b. Quot.mk (fill fresh b.0);
        rinv = λ b. Bounded-ext bits _ b (filled b.0 b.1);
        linv =
            Quot.ind (λ o. Quot-set _ _)
              (λ a. Quot.sound (
                (Alike-contents (fill fresh (contents a.queue)) a).1
                  (filled (contents a.queue) (bounded a).1)));
      }
