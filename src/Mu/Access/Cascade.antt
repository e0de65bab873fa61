-- ===== src/Mu/Access/Cascade.antt =====
-- Tasks that use the resource at once: called as its owner, each releases it before it returns, so that
-- releases are nested in one another.
use toy_tstat.Common.{ℕ, zero, suc, ◌≡◌, List, []}
use toy_tstat.Mu.Access.{Pqueue, Laws, AccessMgr, release_ownership}

module _ {P : Type 0} {o : Pqueue P} {items : P → List ℕ} (laws : Laws o items) where
  -- What such a task does to the manager, with `depth` calls nested in it at most.
  pub use_at_once : ℕ → ℕ → AccessMgr P → AccessMgr P
  use_at_once zero task m = m
  use_at_once (suc depth) task m = (release_ownership o (use_at_once depth) m task).1

  -- Nobody owns the resource, and nobody waits for it.
  abbrev pub IsFree : AccessMgr P → Type 0
  IsFree m = (m.owner ≡ 0) × (items m.pending ≡ [])

  -- The manager with its next owner.
  abbrev handed : AccessMgr P → AccessMgr P
  handed m = record { owner = (o.get m.pending).0; pending = (o.get m.pending).1 }
