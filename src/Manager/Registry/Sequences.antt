-- ===== src/Manager/Registry/Sequences.antt =====
-- Requests to src/manager.C one after the other, as changes of the registry.
use wye.Common.{◌≡◌, refl, append_assoc, sym, ap, ◌∙◌, List, [], ◌∷◌, ◌++◌}
use wye.Text.{Text}
use wye.Text.Order.{text_order}
use wye.Ptree.{PropertyTree}
use wye.Kernel.{Kernel}
use wye.Outcome.{Fault, throws, Exec, ok, continue, ◌>>=◌}
use wye.Outcome.Laws.{bind-eq-ok}
use wye.Manager.State.{World}
use wye.Manager.{handle}
use wye.Manager.Invariant.{WellFormed}
use wye.Manager.Invariant.Requests.{handle-WellFormed}
use wye.Manager.Registry.{Registry, Command, obey, view, command_of}
use wye.Manager.Registry.Refinement.{handle_obeys}

-- Commands in the order in which they are given.
unfoldable pub obey_all : List Command → Registry → Registry
obey_all [] r = r
obey_all (c ∷ cs) r = obey_all cs (obey c r)

pub obey_all-append :
    (cs ds : List Command) (r : Registry) → obey_all (cs ++ ds) r ≡ obey_all ds (obey_all cs r)
unfolding obey_all
obey_all-append [] ds r = refl
obey_all-append (c ∷ cs) ds r = obey_all-append cs ds (obey c r)

module _ ⦃k : Kernel⦄ ⦃t : PropertyTree⦄ where
  open t use {Tree, get_string, put, empty}

  -- The tables are well formed and show what the commands made of the registry.
  pub record Serves (cs : List Command) (w w' : World) : Type 0 where
    pub good : WellFormed w'
    pub shows : view w' ≡ obey_all cs (view w)

  -- A sequence that returned is its first call, and then the rest from the state that it left.
  pub bind_done :
      {A B : Type 0} (m : Exec World A) (f : A → Exec World B) (w : World) (b : B)
      → ((m >>= f) w).0 ≡ ok b
      → (a : A) × ((m w).0 ≡ ok a) × ((m >>= f) w ≡ f a (m w).1) × ((f a (m w).1).0 ≡ ok b)
  bind_done m f w b h =
      let (a, e, g) = bind-eq-ok f m w b h in (a, e, ap (λ r. continue f r (m w).1) e, g)

  pub nothing-Serves : (w : World) → WellFormed w → Serves [] w w
  unfolding obey_all
  nothing-Serves w v = record { good = v; shows = refl }

  pub Serves-then :
      {cs ds : List Command} {w w' w'' : World}
      → Serves cs w w'
      → Serves ds w' w''
      → Serves (cs ++ ds) w w''
  Serves-then {cs} {ds} {w} a b = record {
    good = b.good;
    shows = b.shows ∙ ap (obey_all ds) a.shows ∙ sym (obey_all-append cs ds (view w));
  }

  -- One call that returned.
  pub call-Serves :
      (uuid : Text) (p : Tree) (w : World) (r : Tree)
      → WellFormed w
      → (handle uuid p w).0 ≡ ok r
      → Serves (command_of uuid p ∷ []) w (handle uuid p w).1
  unfolding obey_all
  call-Serves uuid p w r v e = record {
    good = handle-WellFormed uuid p w v;
    shows = handle_obeys uuid p w v.workers_sorted ((λ h. cc (e, h)), (λ h. cc (e, h)));
  }

  -- One call that threw: what it did before stays.
  pub thrown-Serves :
      (uuid : Text) (p : Tree) (w : World) (e : Fault)
      → WellFormed w
      → (handle uuid p w).0 ≡ throws e
      → Serves (command_of uuid p ∷ []) w (handle uuid p w).1
  unfolding obey_all
  thrown-Serves uuid p w e v t = record {
    good = handle-WellFormed uuid p w v;
    shows = handle_obeys uuid p w v.workers_sorted ((λ h. cc (t, h)), (λ h. cc (t, h)));
  }

  -- The commands were carried out up to one of them.
  pub record Partly (cs : List Command) (w w' : World) : Type 0 where
    pub obeyed : List Command
    pub left : List Command
    pub split : obeyed ++ left ≡ cs
    pub serves : Serves obeyed w w'

  pub nothing-Partly : (cs : List Command) (w : World) → WellFormed w → Partly cs w w
  nothing-Partly cs w v = record {
    obeyed = [];
    left = cs;
    split = refl;
    serves = nothing-Serves w v;
  }

  pub Serves-Partly :
      {cs : List Command} {w w' : World} (ds : List Command)
      → Serves cs w w'
      → Partly (cs ++ ds) w w'
  Serves-Partly {cs} ds s = record { obeyed = cs; left = ds; split = refl; serves = s }

  pub Partly-append :
      {cs : List Command} {w w' : World} (ds : List Command)
      → Partly cs w w'
      → Partly (cs ++ ds) w w'
  Partly-append ds p = record {
    obeyed = p.obeyed;
    left = p.left ++ ds;
    split = sym (append_assoc p.obeyed p.left ds) ∙ ap (λ l. l ++ ds) p.split;
    serves = p.serves;
  }

  pub then-Partly :
      {cs ds : List Command} {w w' w'' : World}
      → Serves cs w w'
      → Partly ds w' w''
      → Partly (cs ++ ds) w w''
  then-Partly {cs} s p = record {
    obeyed = cs ++ p.obeyed;
    left = p.left;
    split = append_assoc cs p.obeyed p.left ∙ ap (λ l. cs ++ l) p.split;
    serves = Serves-then s p.serves;
  }
