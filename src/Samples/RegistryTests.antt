-- ===== src/Samples/RegistryTests.antt =====
-- The theorems on the registry, and on the end of the service, at concrete tables.
use wye.Common.{ℕ, some, none, ap, ◌≡◌, ◌≢◌, refl, subst, [], ◌∷◌, arith}
use wye.Text.{Text, lit, text_eq}
use wye.Text.Order.{compare_text, text_order}
use wye.OrderedMap.{Map, find, erase, same}
use wye.OrderedMap.Laws.{IsSorted}
use wye.Ptree.{first_child}
use wye.Outcome.{ok}
use wye.Process.{Process, destroy}
use wye.Manager.{handle, dispatch}
use wye.Manager.Workers.{erase_worker, drop_worker}
use wye.Manager.Jobs.{delete_job, erase_all_of, erase_workers_of, first_of_job}
use wye.Manager.Registry.{view, obey, command_of}
use wye.Manager.Registry.Jobs.{Settles}
use wye.OrderedMap.Entries.{Entries}
use wye.Process.Lifetime.{Reaped, Spares, Stoppable}
use wye.Kernel.{Child, gone}
use wye.Manager.Monitor.{stop}
use wye.Manager.Monitor.Stop.{Apart, stop_reaps_all}
use wye.Manager.Registry.Refinement.{handle_obeys}
use wye.Samples.Trees.{Node, sample_trees, value, node_children, to_list}
use wye.Samples.System.{sample_kernel}
use wye.Samples.Sockets.{request}
use wye.Samples.Data.{two_workers, two_children, silent_output, worker_of}

abbrev pub close_request : Node
close_request = request ((lit "operation", lit "delete-job") ∷ (lit "id", lit "j1") ∷ [])

pub sorted : IsSorted two_workers.workers
unfolding lit compare_text
sorted = ((refl, tt), (tt, tt))

closes : (handle (lit "u1") close_request two_workers).0 ≡ ok sample_trees.empty
unfolding handle dispatch delete_job erase_all_of erase_workers_of first_of_job erase_worker
    drop_worker destroy find erase same lit text_eq compare_text first_child node_children to_list
    value
closes = refl

settles : Settles (handle (lit "u1") close_request two_workers).0
settles = ((λ h. absurd (cc (closes, h))), (λ h. absurd (cc (closes, h))))

handle_obeys_example :
    view (handle (lit "u1") close_request two_workers).1
    ≡ obey (command_of (lit "u1") close_request) (view two_workers)
handle_obeys_example = handle_obeys (lit "u1") close_request two_workers sorted settles

abbrev held : ℕ → Child
held n = record { pid = n; output = silent_output }

held_by : (n : ℕ) (c : Child) → some (held n) ≡ some c → held n ≡ c
held_by n c e = ap (λ o. elim o [ none ↦ c | some x ↦ x ]) e

one_known : two_children.phases 1 ≢ gone
one_known h = absurd (cc)

two_known : two_children.phases 2 ≢ gone
two_known h = absurd (cc)

one_apart : (c : Child) → some (held 2) ≡ some c → 1 ≢ c.pid
one_apart c e h = absurd (omega (arith, ap (λ x. x.pid) (held_by 2 c e), h))

abbrev none_left : Map Text Process
none_left = []

abbrev of_second : Map Text Process
of_second = (lit "b", worker_of (lit "b") (lit "j1") 2) ∷ []

pub apart : Apart two_workers.workers two_workers.os
apart = (
  (λ c e.
      subst (λ x. Stoppable x.pid two_children × Entries (λ _ q. Spares x.pid q) of_second)
        (held_by 1 c e) ((one_known, refl), (one_apart, tt))),
  (
    (λ c e.
        subst (λ x. Stoppable x.pid two_children × Entries (λ _ q. Spares x.pid q) none_left)
          (held_by 2 c e) ((two_known, refl), tt)),
    tt,
  ),
)

stop_reaps_all_example :
    ((stop two_workers).0 ≡ ok tt)
    × ((stop two_workers).1.workers ≡ [])
    × ((stop two_workers).1.jobs ≡ two_workers.jobs)
    × Entries (λ _ q. Reaped (stop two_workers).1.os q) two_workers.workers
stop_reaps_all_example = stop_reaps_all two_workers apart
