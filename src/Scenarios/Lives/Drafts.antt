-- ===== src/Scenarios/Lives/Drafts.antt =====
-- An approved content draft that is superseded.
use softbox_ai.Prelude.{◌≡◌, List, [], ◌∷◌, arith}
use softbox_ai.Entities.History.{history}
use softbox_ai.Entities.ContentDraft.Lifecycle.{
  Call, call, supersede, decline, copy, IsConsistent, history-copy,
}
use softbox_ai.Scenarios.Data.{approved_draft}

abbrev calls : List Call
calls = decline "no" 8 ∷ supersede 96 9 ∷ []

approved-IsConsistent : IsConsistent approved_draft
approved-IsConsistent = ground arith

copy_example :
    (copy (history call approved_draft calls) ≡ copy approved_draft)
    × IsConsistent (history call approved_draft calls)
copy_example = history-copy approved_draft calls approved-IsConsistent
