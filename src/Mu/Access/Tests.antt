-- ===== src/Mu/Access/Tests.antt =====
-- A queue of four pointers as a list, and a manager whose resource is owned while two tasks wait.
use toy_tstat.Common.{
  ℕ, ◌≡◌, refl, inl, inr, true, false, List, [], ◌∷◌, ◌++◌, ◌==◌, length, if◌then◌else◌, Bool-cases,
  arith,
}
use toy_tstat.Mu.Links.Search.{member, remove}
use toy_tstat.Mu.Access.{Pqueue, Laws, polled, AccessMgr, request_ownership, release_ownership}
use toy_tstat.Mu.Access.Owner.{IsOrderly, access_in_order}

abbrev four : Pqueue (List ℕ)
four = record {
  get = polled;
  put = λ p x. if length p == 4 then (false, p) else (true, p ++ x ∷ []);
  contains = λ p x. member x p;
  delete = λ p x. (member x p, remove x p);
}

put_lem :
    (p : List ℕ) (x : ℕ) → let (done, p') = four.put p x in p' ≡ (if done then p ++ x ∷ [] else p)
put_lem p x = elim (Bool-cases (length p == 4)) [ inl e ↦ rw e refl | inr e ↦ rw e refl ]

abbrev items : List ℕ → List ℕ
items p = p

four-Laws : Laws four items
four-Laws = record {
  get_oldest = λ p. refl;
  put_behind = put_lem;
  contains_member = λ p x. refl;
  delete_member = λ p x. (refl, refl);
}

abbrev nothing : ℕ → AccessMgr (List ℕ) → AccessMgr (List ℕ)
nothing task m = m

abbrev owned : AccessMgr (List ℕ)
owned = record { owner = 3; pending = 5 ∷ 4 ∷ [] }

owned-IsOrderly : IsOrderly 3 (5 ∷ 4 ∷ [])
owned-IsOrderly = record {
  unowned = λ e. absurd (omega arith);
  apart = (omega arith, (omega arith, tt));
  distinct = ((omega arith, tt), (tt, tt));
  tasks = (omega arith, (omega arith, tt));
}

access_example :
    let m = (request_ownership four nothing owned 7).1 in
    let n = (release_ownership four nothing owned 7).1 in
    IsOrderly m.owner m.pending × IsOrderly n.owner n.pending
access_example =
    access_in_order four-Laws nothing (λ task m v. v) owned 7 (omega arith) owned-IsOrderly
