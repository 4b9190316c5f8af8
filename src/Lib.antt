-- ===== src/Lib.antt =====
-- Softbox: the lifecycle core of a catalog image service. Products are photographed, images are
-- rendered by attempts (generation items of a generation request), judged, approved and published
-- to channels. Everything slow runs outside transactions: a use case claims a job from a queue in
-- the database, a worker does the work, and another use case records success or failure.
--
-- Files and the code they model, by path from the repository's root:
--   Entities/*          src/app/entities: one row each as a record, its status as a data type, its
--                       constructor and its mutating methods as functions to a `Result`. The child
--                       Lifecycle of each is about any sequence of calls of those methods; a call
--                       that raises leaves the row as it was (Entities/History).
--   Services/*          src/app/services: task_backoff, generation_request_rollup, qc_retry_ladder,
--                       input_image_resolution, spec_inheritance, settings_resolver,
--                       category_hierarchy, product_readiness, image_inspection, copy_validation,
--                       copy_prompt_composition, template_placeholder_validator, variant_axis_validation,
--                       and prompt_composition with prompt_rendering.
--   TaskQueue/*         src/app/infrastructure/persistence/task_queue.py over the list of rows.
--   Quota/*             src/app/infrastructure/persistence/quota_reservation_repository.py.
--   RateLimiter/*       src/app/infrastructure/persistence/rate_limiter.py, one row per bucket and window.
--   UnitOfWork          src/app/infrastructure/persistence/unit_of_work.py: the tables, actions over
--                       them, and the transaction, which commits on return and rolls back when the
--                       action raises.
--   Features/*          src/app/features: the use cases, as actions. Publishing, Generation (with the
--                       verdicts of catalog QC), Products, Content, Templates, Settings,
--                       Taxonomy, and in Outbox the relay of features/system. A child of a use case is about what it does.
--   Table/*             the statements that the repositories share: select by tenant and id, update,
--                       insert; and how they count, order and keep the rows apart.
--   Errors, Ids, Json   src/app/shared/errors.py, identifiers and instants, JSONB values.
--   Scenarios/*         concrete rows and calls.
--
-- Choices. A UUID is a natural number, and an instant one of microseconds, so a comparison of
-- instants is one of numbers. A draw of `uuid4()` is a parameter, and so is the delay that one draw
-- of `random.random()` scales from the backoff's ceiling: it is at most the ceiling. A table is a
-- list of rows in the order of insertion, which also decides between rows that an `ORDER BY` leaves
-- equal. Messages keep their words but leave out ids and times, which have no text here.
-- `strftime("%Y-%m")` is a parameter. So are what Pillow decodes of an image's bytes, their digest, what
-- Python's `re` finds in a template, `str()` of a value and `str.lower`. The path of a category
-- is the list of its ids, and its depth a signed number. All loops are over lists, so no fuel is needed.
--
-- Not modelled: transactions that overlap (row locks with SKIP LOCKED; here transactions run one
-- after another), the row-level security of the database and most of its unique indexes, the loop of
-- the relay over the tenants, the HTTP layer, providers and storage, identity and
-- tenancy, the definitions and publication of category specs, the creation of products
-- (pydantic checks their attributes), the rules by which a photo is judged, the start and completion
-- of an analysis of a template, and use cases that only list rows.
mod Prelude
pub mod Errors
pub mod Ids
pub mod Json
mod Table
pub mod Entities
pub mod Services
pub mod TaskQueue
pub mod Quota
pub mod RateLimiter
pub mod UnitOfWork
pub mod Features
mod Scenarios
