-- ===== src/Manager/Children.antt =====
-- The children of the service and the table of workers of src/manager.C: no process is lost, since
-- what no worker of the table holds is unknown to the system.
pub mod Requests
pub mod Rounds
use wye.Common.{
  ℕ, ◌≡◌, ◌≢◌, refl, sym, ap, subst, ◌∙◌, ◌⊎◌, [], ◌∷◌, Option, none, some, arith, inl, inr,
  Option-cases,
}
use wye.OrderedMap.{Map, find, insert, erase}
use wye.OrderedMap.Laws.{
  IsSorted, insert-IsSorted, erase-IsSorted, find-insert, same_self, find-hit,
}
use wye.OrderedMap.Entries.{Entries, find-Entries}
use wye.OrderedMap.Outside.{Entries-insert, Entries-erase, find-later}
use wye.Text.{Text}
use wye.Text.Order.{text_order}
use wye.Outcome.{Outcome, ok, throws, blocks, aborts}
use wye.Outcome.Settled.{Settles}
use wye.Ptree.{PropertyTree}
use wye.Kernel.{Kernel, Child, gone}
use wye.Process.{Process, Model, destroy, run_model}
use wye.Process.Lifetime.{Spares, destroy-ne-throws}
use wye.Process.Holding.{Spares-cases, destroy_leaves_gone, run_model_other}
use wye.Process.Running.{run_model-same}
use wye.Manager.State.{World}
use wye.Manager.Workers.{drop_worker, erase_worker, store_worker, on_worker}
use wye.Manager.Tables.{workers-erase, workers-store}

module _ ⦃k : Kernel⦄ where
  open k use {Os, phase}

  -- Every process that no worker of the table holds is unknown to the system.
  abbrev pub AllHeld : World → Type 0
  AllHeld w = (p : ℕ) → Entries (λ _ q. Spares p q) w.workers → phase p w.os ≡ gone

  pub record Tracked (w : World) : Type 0 where
    pub sorted : IsSorted w.workers
    pub held : AllHeld w

  -- The process is the child of a worker that the table finds under some identifier.
  abbrev pub IsHeld : ℕ → Map Text Process → Type 0
  IsHeld p m =
      (key : Text) × (q : Process) × (c : Child) × (find key m ≡ some q)
      × (q.proc ≡ some c)
      × (c.pid ≡ p)

  pub IsHeld-cases :
      (p : ℕ) (m : Map Text Process) → IsSorted m → Entries (λ _ q. Spares p q) m ⊎ IsHeld p m
  IsHeld-cases p [] s = inl tt
  IsHeld-cases p ((key, q) ∷ m) s = elim (Spares-cases p q) [
    | inr (c, pr, e) ↦ inr (key, q, c, find-hit key key q m (same_self key), pr, sym e)
    | inl a ↦ elim (IsHeld-cases p m s.1) [
      | inl b ↦ inl (a, b)
      | inr (key', q', c, f, pr, e) ↦ inr (key', q', c, find-later key key' q q' m s.0 f, pr, e)
    ]
  ]

  destroy-ok :
      (q : Process) (s : Os)
      → (destroy q s).0 ≢ blocks
      → (destroy q s).0 ≢ aborts
      → (destroy q s).0 ≡ ok tt
  destroy-ok q s nb na = go (destroy q s).0 refl
    where
      go : (o : Outcome (Unit {0})) → (destroy q s).0 ≡ o → (destroy q s).0 ≡ ok tt
      go (ok u) e = e
      go (throws x) e = absurd (destroy-ne-throws q s x e)
      go blocks e = absurd (nb e)
      go aborts e = absurd (na e)

  -- An object that leaves the table takes its child with it.
  pub drop_leaves_gone :
      (o : Option Process) (w : World) (p : ℕ)
      → (drop_worker o w).0 ≢ blocks
      → (drop_worker o w).0 ≢ aborts
      → (((q : Process) → o ≡ some q → Spares p q) → phase p w.os ≡ gone)
      → phase p (drop_worker o w).1.os ≡ gone
  unfolding drop_worker
  drop_leaves_gone none w p nb na g = g (λ q e. absurd (cc))
  drop_leaves_gone (some q) w p nb na g =
      destroy_leaves_gone q p w.os (destroy-ok q w.os nb na)
        (λ sp. g (λ q' e. let same : q ≡ q' = ground arith in subst (Spares p) same sp))

  pub erase_worker-Tracked :
      (id : Text) (w : World) → Tracked w → Settles Tracked (erase_worker id w)
  erase_worker-Tracked id w v nb na = record {
    sorted = rw (workers-erase w id) (erase-IsSorted id w.workers v.sorted);
    held = λ p h.
        unfold erase_worker in
        drop_leaves_gone (find id w.workers) (record w { workers = erase id w.workers }) p nb na
          (λ sp. v.held p (
            Entries-erase (λ _ q. Spares p q) id w.workers v.sorted
              (subst (Entries (λ _ q. Spares p q)) (workers-erase w id) h) sp));
  }

  pub store_worker-Tracked :
      (q : Process) (w : World) → Tracked w → Settles Tracked (store_worker q w)
  store_worker-Tracked q w v nb na = record {
    sorted = rw (workers-store w q) (insert-IsSorted q.id q w.workers v.sorted);
    held = λ p h.
        unfold store_worker in
        drop_leaves_gone (find q.id w.workers) (record w { workers = insert q.id q w.workers }) p nb
          na
          (λ sp. v.held p (
            Entries-insert (λ _ q'. Spares p q') q.id q w.workers
              (subst (Entries (λ _ q'. Spares p q')) (workers-store w q) h) sp));
  }

  module _ ⦃t : PropertyTree⦄ where
    -- A worker that is in the table and holds no child is started.
    pub on_worker-Tracked :
        (q : Process) (w : World) (m : Model)
        → find q.id w.workers ≡ some q
        → q.proc ≡ none
        → Tracked w
        → Tracked (on_worker q (run_model m) w).1
    unfolding on_worker
    on_worker-Tracked q w m f n v = record {
      sorted = insert-IsSorted q.id q' w.workers v.sorted;
      held = λ p h.
          let started = find-Entries (λ _. Spares p) q.id q' (insert q.id q' w.workers) h found in
          run_model_other q p w.os m started
          ∙ v.held p (Entries-insert (λ _. Spares p) q.id q' w.workers h (unheld p));
    }
      where
        q' : Process
        q' = (run_model m (q, w.os)).1.0

        found : find q.id (insert q.id q' w.workers) ≡ some q'
        found = rw (find-insert q.id q.id q' w.workers, same_self q.id) refl

        unheld : (p : ℕ) (r : Process) → find q.id w.workers ≡ some r → Spares p r
        unheld p r e c pr =
            let same : q ≡ r = ground arith in
            absurd (none-ne-child c (sym n ∙ (ap (λ x. x.proc) same ∙ pr)))
          where
            none-ne-child : (c : Child) → none ≢ some c
            none-ne-child c e = cc
