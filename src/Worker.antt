-- ===== src/Worker.antt =====
-- src/worker.h and src/worker.C: what every worker has. The virtual functions `describe` and
-- `is_running` have one implementation, that of `process`.
use wye.Common.{List, []}
use wye.OrderedMap.{Map}
use wye.Text.{Text}

-- enum worker_state
pub data WorkerState : Type 0 where
  running stopped : WorkerState

abbrev pub Address : Type 0
Address = List Text

abbrev pub AddressList : Type 0
AddressList = List Address

pub record Worker : Type 0 where
  pub id : Text
  pub name : Text
  pub job_id : Text
  pub state : WorkerState
  pub outputs : Map Text AddressList
  pub inputs : Map Text Text

-- The constructor; `uuid` is the text of what the generator returned.
unfoldable pub new_worker : Text → Worker
new_worker uuid = record {
  id = uuid;
  name = [];
  job_id = [];
  state = running;
  outputs = [];
  inputs = [];
}
