-- ===== src/Scenarios/Lives/Items.antt =====
-- A generation item that fails, is retried and succeeds.
use softbox_ai.Prelude.{◌≡◌, List, [], ◌∷◌, arith, refl}
use softbox_ai.Errors.{ok}
use softbox_ai.Entities.History.{history}
use softbox_ai.Entities.GenerationItem.{pending, running, mark_running}
use softbox_ai.Entities.GenerationItem.Lifecycle.{
  Call, call, run, fail, succeed, die, ◌⟶◌, call-⟶, lineage, IsConsistent, history-IsConsistent,
}
use softbox_ai.Scenarios.Data.{item_of, running_item}

runs : call run (item_of pending) ≡ ok running_item
unfolding call mark_running
runs = refl

edge_example : pending ⟶ running
edge_example = call-⟶ run (item_of pending) running_item runs

abbrev calls : List Call
calls = fail "timeout" "no answer" ∷ die ∷ run ∷ succeed 50 900 80 ∷ []

running-IsConsistent : IsConsistent running_item
running-IsConsistent = ground arith

item_example :
    (lineage (history call running_item calls) ≡ lineage running_item)
    × IsConsistent (history call running_item calls)
item_example = history-IsConsistent running_item calls running-IsConsistent
