-- ===== src/Manager/Registry/Lookups.antt =====
-- Lookups in the tables of src/manager.C after each of its changes.
use mathlib.Core.Option
use wye.Common.{◌≡◌, refl, arith, Option, none, some, [], ◌∷◌}
use wye.OrderedMap.{Map, find, insert, erase}
use wye.OrderedMap.Laws.{IsSorted, find-insert, find-erase, find_below, same→eq}
use wye.Text.{Text}
use wye.Text.Order.{text_order}
use wye.Process.{Process}
use wye.Manager.DeleteJob.{others}
use wye.Manager.Registry.{set, without}

abbrev pub job_of : Option Process → Option Text
job_of o = Option.map (λ q. q.job_id) o

pub owner-insert :
    (i id : Text) (q : Process) (m : Map Text Process)
    → job_of (find i (insert id q m)) ≡ set id (some q.job_id) (λ j. job_of (find j m)) i
owner-insert i id q m = ground (arith, find-insert i id q m)

pub owner-erase :
    (i id : Text) (m : Map Text Process)
    → job_of (find i (erase id m)) ≡ set id none (λ j. job_of (find j m)) i
owner-erase i id m = ground (arith, find-erase i id m)

find-others-none :
    (i id : Text) (m : Map Text Process) → find i m ≡ none → find i (others id m) ≡ none
unfolding find others
find-others-none i id [] h = refl
find-others-none i id ((k, q) ∷ m) h = ground (arith, find-others-none i id m)

-- In a sorted table, the workers that stay are those that have another job.
pub owner-others :
    (i id : Text) (m : Map Text Process)
    → IsSorted m
    → job_of (find i (others id m)) ≡ without id (job_of (find i m))
unfolding find others
owner-others i id [] s = refl
owner-others i id ((k, q) ∷ m) s =
    ground
      (arith, owner-others i id m s.1, find-others-none i id m, find_below k m s.0, same→eq i k)
