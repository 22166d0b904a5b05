-- ===== src/Client/Wired.antt =====
-- From the outputs of a request of python/wye to the sockets of the child that src/manager.C starts
-- for it.
use wye.Common.{ℕ, ◌≡◌, refl, ap, ◌∙◌, Bool, none, some, if◌then◌else◌, [], drop}
use wye.OrderedMap.{Map}
use wye.OrderedMap.Laws.{IsSorted}
use wye.Text.{Text}
use wye.Text.Order.{text_order}
use wye.Ptree.{PropertyTree}
use wye.Kernel.{Kernel}
use wye.Outcome.{ok}
use wye.Worker.{AddressList}
use wye.Process.{Process}
use wye.Models.Commands.{output_args}
use wye.Models.Arguments.Sockets.{
  AreSeparable, takes_outputs, parse_outputs, sockets_of, parse_outputs-output_args,
}
use wye.Manager.Workers.{prepare_worker}
use wye.Client.Request.{
  Kind, application_exe, executable_exe, python_file, lambda_func, lua_file, generator_func,
  create_request, numbered,
}
use wye.Client.Classes.{IsAbsolute, args_of, worker_for}
use wye.Client.Accepted.{client_request_accepted}

-- A worker that is handed its outputs on its command line, and not in a program text.
abbrev pub IsScript : Kind → Type 0
IsScript (lambda_func x) = ⊥
IsScript (generator_func x) = ⊥
IsScript kind = Unit

drop-args_of :
    (kind : Kind) (outs : Map Text AddressList)
    → IsScript kind
    → drop 2 (args_of kind outs) ≡ output_args outs
drop-args_of (application_exe x) outs h = refl
drop-args_of (executable_exe x) outs h = refl
drop-args_of (python_file x) outs h = refl
drop-args_of (lua_file x) outs h = refl
drop-args_of (lambda_func x) outs h = elim h [ ]
drop-args_of (generator_func x) outs h = elim h [ ]

module _ ⦃k : Kernel⦄ ⦃t : PropertyTree⦄ where
  -- The service accepts the request for a worker that is handed its outputs on its command line, and
  -- a child that takes the arguments behind the first two apart opens, under the name of each output
  -- that has address lists, one socket for each list in their order, connected to the addresses of
  -- the request, when ZeroMQ takes each of them and, if a list has none, the empty address; else it
  -- raises an exception. The outputs are in the order of their names, no name holds a colon, no
  -- address holds a comma, and an application is named by an absolute path.
  pub requested_sockets :
      (connects : Text → Bool) (uuid : Text) (kind : Kind) (name job : Text) (i : ℕ)
      (outs : Map Text AddressList)
      → IsScript kind
      → IsAbsolute kind
      → IsSorted outs
      → AreSeparable outs
      → (q : Process) × (prepare_worker uuid (create_request kind name job i outs) ≡ ok q)
        × (parse_outputs connects (drop 2 q.args) []
            ≡ (if takes_outputs connects outs then some (sockets_of outs) else none))
  requested_sockets connects uuid kind name job i outs script a srt sep = (
    worker_for kind uuid (numbered name i) job outs,
    client_request_accepted name job i outs srt uuid kind a,
    ap (λ l. parse_outputs connects l []) (drop-args_of kind outs script)
        ∙ parse_outputs-output_args connects outs srt sep,
  )
