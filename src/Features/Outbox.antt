-- ===== src/Features/Outbox.antt =====
-- src/app/features/system/relay_outbox_events_for_tenant.py, with `list_unpublished` and
-- `mark_published` of src/app/infrastructure/persistence/outbox_event_repository.py.
pub mod Listed
pub mod Backlog
use softbox_ai.Prelude.{
  ℕ, Option, none, some, List, [], ◌∷◌, Bool, ◌&&◌, ◌==◌, is_none, filter, take, sort_by, length,
}
use softbox_ai.Ids.{Uuid, Instant}
use softbox_ai.Table.{get, save}
use softbox_ai.UnitOfWork.{Db, Tx, pure, gets, modify, OutboxEvent, event_row, ◌>>=◌, ◌>>◌}
use softbox_ai.Features.Queue.{enqueue_job}

abbrev pub is_unpublished : Uuid → OutboxEvent → Bool
is_unpublished tenant e = e.tenant_id == tenant && is_none e.published_at

-- `order_by(created_at).limit(limit)`; of two events of one instant the earlier row is first here.
unfoldable pub list_unpublished : Uuid → ℕ → List OutboxEvent → List OutboxEvent
list_unpublished tenant limit events =
    take limit (sort_by (λ e. e.created_at) (filter (is_unpublished tenant) events))

-- `update … where tenant_id and id`, on the row if there is one.
abbrev pub publish_row : Instant → List OutboxEvent → Option OutboxEvent → List OutboxEvent
publish_row now events none = events
publish_row now events (some e) = save (record e { published_at = some now }) events

unfoldable pub mark_published : Uuid → Uuid → Instant → List OutboxEvent → List OutboxEvent
mark_published tenant id now events = publish_row now events (get tenant id events)

-- The loop; `new_id` is what `uuid4()` draws for the job of an event.
unfoldable pub relay_all : Uuid → Instant → (Uuid → Uuid) → List OutboxEvent → Tx (Unit {0})
unfolding mark_published
relay_all tenant now new_id [] = pure tt
relay_all tenant now new_id (e ∷ events) = do
  enqueue_job (new_id e.id) tenant e.event_type e.payload now
  modify (λ db. record db { outbox_events = mark_published tenant e.id now db.outbox_events })
  relay_all tenant now new_id events

unfoldable pub relay_outbox_events_for_tenant : Uuid → ℕ → Instant → (Uuid → Uuid) → Tx ℕ
unfolding list_unpublished relay_all
relay_outbox_events_for_tenant tenant limit now new_id = do
  events ← gets (λ db. list_unpublished tenant limit db.outbox_events)
  relay_all tenant now new_id events
  pure (length events)
