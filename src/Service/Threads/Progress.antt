-- ===== src/Service/Threads/Progress.antt =====
-- How a call of src/manager.C comes to its answer beside the background thread.
use wye.Common.{List, ◌∷◌, ◌++◌, ◌≡◌, ◌≢◌, ◌⊎◌}
use wye.Text.{Text}
use wye.Text.Order.{text_order}
use wye.Outcome.{Outcome, blocks, aborts}
use wye.Ptree.{PropertyTree}
use wye.Kernel.{Kernel}
use wye.Process.{Process}
use wye.Manager.State.{World}
use wye.Manager.Termination.{ChildrenEnd, ChildrenSpeak}
use wye.Service.Threads.{
  Entry, idle, halted, Background, sleeping, checking, ended, waiting, Threads, Answer, Steps,
}

module _ ⦃k : Kernel⦄ ⦃t : PropertyTree⦄ where
  open t use {Tree}

  -- The call has returned or thrown, and this is the next answer.
  abbrev pub IsAnswered : List Answer × Threads → List Answer → Entry → Type 0
  IsAnswered s l c =
      (o : Outcome Tree) × (s.0 ≡ (c, o) ∷ l)
      × (o ≢ blocks)
      × (o ≢ aborts)
      × (s.1.foreground ≡ idle)

  -- From the first state the call is answered, or one of the two threads ends the program.
  abbrev pub Served : List Answer × Threads → List Answer → Entry → Type 0
  Served s l c =
      (s' : List Answer × Threads) × Steps s s'
      × (IsAnswered s' l c
          ⊎ ((o : Outcome (Unit {0})) × (s'.1.background ≡ ended o))
          ⊎ (s'.1.foreground ≡ halted aborts))

  -- A round in its middle has the table in two parts.
  abbrev pub Fits : World → Background → Type 0
  Fits w sleeping = Unit
  Fits w (checking done rest) = w.workers ≡ done ++ rest
  Fits w (ended o) = Unit

  module _ (e : ChildrenEnd) (f : ChildrenSpeak) where
    module _ (s : List Answer × Threads) (l : List Answer) (c : Entry) where
      abbrev stands : World → Background → List Answer × Threads
      stands w b = (l, record { world = w; foreground = waiting c; background = b })
