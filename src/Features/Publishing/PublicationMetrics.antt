-- ===== src/Features/Publishing/PublicationMetrics.antt =====
-- src/app/features/publishing/start_publication_metrics_fetch.py and
-- complete_publication_metrics_fetch.py, with `claim_for_metrics_fetch` of
-- src/app/infrastructure/persistence/publication_repository.py.
pub mod Claim
use softbox_ai.Prelude.{
  ℕ, ◌-◌, String, Option, none, some, List, Bool, true, false, not, ◌&&◌, ◌||◌, ◌==◌, leb, filter,
  find, min_by, is_none,
}
use softbox_ai.Errors.{AppError, not_found, assertion_error, require}
use softbox_ai.Ids.{Uuid, Instant, seconds}
use softbox_ai.Json.{JsonDict}
use softbox_ai.Table.{get, save}
use softbox_ai.Entities.Publication.{
  Publication, is_published, mark_metrics_fetch_attempted, record_metrics,
}
use softbox_ai.UnitOfWork.{Db, Tx, pure, lift, gets, found, modify, publication_row, ◌>>=◌, ◌>>◌}

abbrev pub default_staleness : ℕ
default_staleness = seconds 3600

pub record MetricsFetchContext : Type 0 where
  pub publication_id : Uuid
  pub external_post_id : String

abbrev pub is_stale : Instant → Option Instant → Bool
is_stale before none = true
is_stale before (some at) = leb at before

-- The `where` of the claim.
abbrev pub wants_metrics : Uuid → Instant → Publication → Bool
wants_metrics tenant before p =
    p.tenant_id == tenant
    && is_published p.status
    && not (is_none p.external_post_id)
    && is_stale before p.metrics_fetched_at

abbrev pub posted_at : Publication → ℕ
posted_at p = elim p.published_at [ none ↦ 0 | some at ↦ at ]

abbrev pub or_else : Option Publication → Option Publication → Option Publication
or_else (some p) o = some p
or_else none o = o

-- `order_by(published_at).limit(1)`, where a row without a time comes last.
unfoldable pub claim_for_metrics_fetch : Uuid → Instant → List Publication → Option Publication
claim_for_metrics_fetch tenant before rows =
    let ready = filter (wants_metrics tenant before) rows in
    or_else (min_by posted_at (filter (λ p. not (is_none p.published_at)) ready))
      (find (λ p. is_none p.published_at) ready)

unfoldable pub fetch_claimed : Instant → Option Publication → Tx (Option MetricsFetchContext)
fetch_claimed now none = pure none
fetch_claimed now (some p) = do
  p' ← lift (mark_metrics_fetch_attempted now p)
  modify (λ db. record db { publications = save p' db.publications })
  post ← lift (require p'.external_post_id (assertion_error ""))
  pure (some (record { publication_id = p'.id; external_post_id = post }))

-- An instant lies more than any staleness after the origin of time.
unfoldable pub start_publication_metrics_fetch :
    Uuid → ℕ → Instant → Tx (Option MetricsFetchContext)
start_publication_metrics_fetch tenant staleness now = do
  p ← gets (λ db. claim_for_metrics_fetch tenant (now - staleness) db.publications)
  fetch_claimed now p

-- `metrics` is `asdict` of the channel's metrics.
unfoldable pub complete_publication_metrics_fetch :
    Uuid → Uuid → JsonDict → Instant → Tx Publication
complete_publication_metrics_fetch tenant id metrics now = do
  p ← found (λ db. get tenant id db.publications) (not_found "Publication not found.")
  p' ← lift (record_metrics metrics now p)
  modify (λ db. record db { publications = save p' db.publications })
  pure p'
