-- ===== src/Manager/Monitor/Noticed.antt =====
-- A worker of src/manager.C whose child has been reaped, until the background thread marks it.
use wye.Common.{◌≡◌, ◌≢◌, refl, sym, ap, subst, ◌∙◌, ◌⊎◌, inl, inr, arith, some, Bool-cases}
use wye.OrderedMap.{Map, find, insert, erase, same}
use wye.OrderedMap.Laws.{find-insert, find-erase, same→eq}
use wye.Text.{Text}
use wye.Text.Order.{text_order}
use wye.Outcome.{ok}
use wye.Outcome.Settled.{Settles, ok-ne-blocks, ok-ne-aborts, bind_after-Settles}
use wye.Ptree.{PropertyTree}
use wye.Kernel.{Kernel, Child, alive, gone}
use wye.Worker.{stopped}
use wye.Process.{Process, is_running, run_model}
use wye.Process.Holding.{NotReused, run_model_keeps_gone}
use wye.Manager.State.{World}
use wye.Manager.Tables.{workers-erase, workers-store}
use wye.Manager.Errors.{store_worker-ne-throws}
use wye.Manager.Workers.{erase_worker, store_worker, on_worker, start_worker}
use wye.Manager.Kept.{KeptByParts, handle-Settles}
use wye.Manager.Children.{drop_leaves_gone}
use wye.Manager.Children.Requests.{catch_all-Settles}
use wye.Manager.Monitor.{sweep}
use wye.Manager.Monitor.Polling.{poll-gone, check-keeps}
use wye.Manager.Monitor.Reaping.{find-checked, check-reaps}
use wye.Manager.Monitor.Detection.{IsUp, detect_ended}
use wye.Manager.{handle}

module _ ⦃k : Kernel⦄ where
  open k use {Os, phase, poll, poll_gone}

  module _ (id : Text) (c : Child) where
    -- The child is reaped, and the worker, if it is in the table, holds it still or is marked.
    pub record IsDying (w : World) : Type 0 where
      pub reaped : phase c.pid w.os ≡ gone
      pub holds :
          (q : Process) → find id w.workers ≡ some q → (q.state ≡ stopped) ⊎ (q.proc ≡ some c)

    pub sweep-starts :
        (q : Process) (w : World)
        → IsUp q c
        → find id w.workers ≡ some q
        → phase c.pid w.os ≢ alive
        → (sweep w).0 ≡ ok tt
        → IsDying (sweep w).1
    unfolding sweep
    sweep-starts q w up f ended e = record {
      reaped = check-reaps id q c w.workers w.os up f ended e;
      holds = λ q' f'. elim (detect_ended id q c up w.workers w.os f ended e) [
        | inl g ↦ inl (ground arith)
        | inr (g, _) ↦ inr (let (_, pr) = up in ground arith)
      ];
    }

    is_running-holds :
        (q : Process) (s : Os)
        → (q.state ≡ stopped) ⊎ (q.proc ≡ some c)
        → ((is_running (q, s)).1.0.state ≡ stopped) ⊎ ((is_running (q, s)).1.0.proc ≡ some c)
    unfolding is_running
    is_running-holds q s h = ground arith

    is_running-marks :
        (q : Process) (s : Os)
        → phase c.pid s ≡ gone
        → (q.state ≡ stopped) ⊎ (q.proc ≡ some c)
        → (is_running (q, s)).1.0.state ≡ stopped
    unfolding is_running
    is_running-marks q s g h = ground (arith, poll_gone c.pid s g)

    pub sweep-IsDying : (w : World) → IsDying w → (sweep w).0 ≡ ok tt → IsDying (sweep w).1
    unfolding sweep
    sweep-IsDying w v e = record {
      reaped = check-keeps (λ s. phase c.pid s ≡ gone) (poll-gone c.pid) w.workers w.os e v.reaped;
      holds = λ q' f'.
          let (q, s', f, _, eq) =
            find-checked (λ s. Unit) (λ _ _ _. tt) id w.workers w.os q' tt e f' in
          subst (λ x. (x.state ≡ stopped) ⊎ (x.proc ≡ some c)) (sym eq)
            (is_running-holds q s' (v.holds q f));
    }

    pub sweep-marks :
        (w : World) (q' : Process)
        → IsDying w
        → (sweep w).0 ≡ ok tt
        → find id (sweep w).1.workers ≡ some q'
        → q'.state ≡ stopped
    unfolding sweep
    sweep-marks w q' v e f' =
        let (q, s', f, g, eq) =
          find-checked (λ s. phase c.pid s ≡ gone) (poll-gone c.pid) id w.workers w.os q' v.reaped e
            f' in
        subst (λ x. x.state ≡ stopped) (sym eq) (is_running-marks q s' g (v.holds q f))

    erase_worker-IsDying : (i : Text) (w : World) → IsDying w → Settles IsDying (erase_worker i w)
    erase_worker-IsDying i w v nb na = record {
      reaped =
          unfold erase_worker in
          drop_leaves_gone (find i w.workers) (record w { workers = erase i w.workers }) c.pid nb na
            (λ _. v.reaped);
      holds = λ q f. v.holds q (kept q (subst (λ m. find id m ≡ some q) (workers-erase w i) f));
    }
      where
        kept : (q : Process) → find id (erase i w.workers) ≡ some q → find id w.workers ≡ some q
        kept q f = ground (arith, find-erase id i w.workers)

    module _ ⦃t : PropertyTree⦄ (new : NotReused c.pid) where
      start_worker-IsDying :
          (q : Process) (w : World) → id ≢ q.id → IsDying w → Settles IsDying (start_worker q w)
      unfolding start_worker
      start_worker-IsDying q w other v = catch_all-Settles IsDying _ w (
          bind_after-Settles IsDying (λ _. on_worker q (run_model q.model)) (store_worker q) w
            (store_worker-ne-throws q w) (λ _ e _ _. unfold on_worker in after e))
        where
          s' : Os
          s' = (store_worker q w).1.os

          q' : Process
          q' = (run_model q.model (q, s')).1.0

          stored_gone : (store_worker q w).0 ≡ ok tt → phase c.pid s' ≡ gone
          stored_gone e =
              unfold store_worker in
              drop_leaves_gone (find q.id w.workers)
                (record w { workers = insert q.id q w.workers }) c.pid (ok-ne-blocks _ tt e)
                (ok-ne-aborts _ tt e) (λ _. v.reaped)

          unstored :
              (r : Process)
              → find id (insert q.id q' (store_worker q w).1.workers) ≡ some r
              → find id w.workers ≡ some r
          unstored r f =
              sym (miss q w.workers)
              ∙ ap (find id) (sym (workers-store w q))
              ∙ sym (miss q' (store_worker q w).1.workers)
              ∙ f
            where
              miss : (x : Process) (m : Map Text Process) → find id (insert q.id x m) ≡ find id m
              miss x m = elim (Bool-cases (same id q.id)) [
                | inl hit ↦ absurd (other (same→eq id q.id hit))
                | inr away ↦ find-insert id q.id x m ∙ rw away refl
              ]

          after :
              (store_worker q w).0 ≡ ok tt
              → IsDying (on_worker q (run_model q.model) (store_worker q w).1).1
          after e =
              unfold on_worker in
              record {
                reaped = run_model_keeps_gone q c.pid s' q.model new (stored_gone e);
                holds = λ r f. v.holds r (unstored r f);
              }

      IsDying-KeptByParts : KeptByParts (λ uuid. id ≢ uuid) IsDying
      IsDying-KeptByParts = record {
        erased = erase_worker-IsDying;
        started = λ q w other _ _ v. start_worker-IsDying q w other v;
        jobs_changed = λ w m v. record { reaped = v.reaped; holds = v.holds };
      }

      -- A request under another identifier does not bring the worker back.
      pub handle-IsDying :
          (uuid : Text) (p : t.Tree) (w : World)
          → id ≢ uuid
          → IsDying w
          → Settles IsDying (handle uuid p w)
      handle-IsDying = handle-Settles (λ uuid. id ≢ uuid) IsDying IsDying-KeptByParts
