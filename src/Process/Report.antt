-- ===== src/Process/Report.antt =====
-- process::describe of src/process.C.
pub mod Fields
pub mod Lists
use wye.Common.{List, [], ◌∷◌, if◌then◌else◌, is_empty}
use wye.OrderedMap.{Map}
use wye.Text.{Text, lit}
use wye.Ptree.{PropertyTree}
use wye.Worker.{WorkerState, running, stopped, AddressList}
use wye.Process.Describe.{put_inputs, push_texts}
use wye.Process.{Process}

module _ ⦃t : PropertyTree⦄ where
  open t use {Tree, empty, put, push_back, add_child}

  -- for (auto j : i.second) … wal.push_back(std::make_pair("", al));
  unfoldable pub push_addresses : AddressList → Tree → Tree
  push_addresses [] wal = wal
  push_addresses (a ∷ l) wal = push_addresses l (push_back [] (push_texts a empty) wal)

  unfoldable pub add_outputs : Map Text AddressList → Tree → Tree
  add_outputs [] outs = outs
  add_outputs ((name, al) ∷ m) outs = add_outputs m (add_child name (push_addresses al empty) outs)

  put_state : WorkerState → Tree → Tree
  put_state running p = put (lit "state") (lit "RUNNING") p
  put_state stopped p = put (lit "state") (lit "STOPPED") p

  put_name : Text → Tree → Tree
  put_name name p = if is_empty name then p else put (lit "name") name p

  put_args : List Text → Tree → Tree
  put_args args p = if is_empty args then p else add_child (lit "args") (push_texts args empty) p

  put_outputs : Map Text AddressList → Tree → Tree
  put_outputs outputs p =
      if is_empty outputs then p else add_child (lit "outputs") (add_outputs outputs empty) p

  unfoldable pub describe : Process → Tree → Tree
  unfolding put_state put_name put_args put_outputs
  describe w p = put_outputs w.outputs (
      put_inputs w.inputs (
        put_args w.args (
          put_state w.state (
            put (lit "exec") w.exec
              (put (lit "job_id") w.job_id (put_name w.name (put (lit "id") w.id p)))))))
