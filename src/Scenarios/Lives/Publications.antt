-- ===== src/Scenarios/Lives/Publications.antt =====
-- A publication that fails once and is posted at the second try.
use softbox_ai.Prelude.{◌≡◌, none, some, List, [], ◌∷◌, false, arith, refl}
use softbox_ai.Entities.History.{history}
use softbox_ai.Entities.Publication.{Publication, scheduled, published}
use softbox_ai.Entities.Publication.Lifecycle.{
  Call, call, dispatch, fail, post, withdraw, order, IsConsistent, IsPosted, history-order,
  history-published,
}
use softbox_ai.Scenarios.Data.{publication_of}

abbrev waiting : Publication
waiting = publication_of scheduled

abbrev calls : List Call
calls =
    dispatch 4
    ∷ fail "timeout" false 5
    ∷ withdraw 6
    ∷ dispatch 7
    ∷ post "p1" none 8
    ∷ dispatch 9
    ∷ []

abbrev posted : Publication
posted = record (publication_of published) {
  external_post_id = some "p1";
  published_at = some 8;
  attempts = 1;
  last_error = some "timeout";
}

waiting-IsConsistent : IsConsistent waiting
waiting-IsConsistent = ground arith

order_example :
    (order (history call waiting calls) ≡ order waiting) × IsConsistent (history call waiting calls)
order_example = history-order waiting calls waiting-IsConsistent

posted_example : IsPosted (some "p1") none (some 8) 1 (history call posted calls)
posted_example = history-published posted calls refl
