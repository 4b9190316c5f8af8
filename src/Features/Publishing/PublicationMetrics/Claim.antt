-- ===== src/Features/Publishing/PublicationMetrics/Claim.antt =====
-- About the claim query and the assertion of start_publication_metrics_fetch.py.
use softbox_ai.Prelude.{
  Bool, ◌≡◌, ◌∙◌, inl, inr, Option, none, some, List, true, In, In-filter, In-min_by, In-find, find,
  min_by, filter, not, is_none, Option-cases, refl, arith, ℕ, ◌-◌,
}
use softbox_ai.Errors.{ok}
use softbox_ai.Ids.{Uuid, Instant}
use softbox_ai.Table.{save}
use softbox_ai.Entities.Publication.{
  Publication, published, is_published, mark_metrics_fetch_attempted,
}
use softbox_ai.UnitOfWork.{Db, publication_row}
use softbox_ai.Features.Publishing.PublicationMetrics.{
  MetricsFetchContext, wants_metrics, posted_at, or_else, claim_for_metrics_fetch, fetch_claimed,
  start_publication_metrics_fetch,
}

module _ (tenant : Uuid) where
  In-claim :
      (before : Instant) (rows : List Publication) (p : Publication)
      → claim_for_metrics_fetch tenant before rows ≡ some p
      → In p rows × (wants_metrics tenant before p ≡ true)
  unfolding claim_for_metrics_fetch
  In-claim before rows p h = go (min_by posted_at (filter timed ready)) refl h
    where
      ready : List Publication
      ready = filter (wants_metrics tenant before) rows

      timed : Publication → Bool
      timed p = not (is_none p.published_at)

      go :
          (o : Option Publication)
          → min_by posted_at (filter timed ready) ≡ o
          → or_else o (find (λ p. is_none p.published_at) ready) ≡ some p
          → In p rows × (wants_metrics tenant before p ≡ true)
      go none e f = In-filter _ p rows (In-find _ ready p f)
      go (some q) e f =
          In-filter _ p rows (In-filter timed p ready (In-min_by posted_at _ p (e ∙ f))).0

  -- What one poll does: nothing, or it hands out a published row of the tenant with its post's id and
  -- writes the time of the fetch to that row alone.
  abbrev pub Fetches : Instant → Db → Option MetricsFetchContext → Db → Type 0
  Fetches now db none db' = db' ≡ db
  Fetches now db (some c) db' =
      (p : Publication) × In p db.publications
      × (p.tenant_id ≡ tenant)
      × (p.status ≡ published)
      × (p.id ≡ c.publication_id)
      × (p.external_post_id ≡ some c.external_post_id)
      × (db' ≡ record db {
        publications =
            save (record p { metrics_fetched_at = some now; updated_at = now }) db.publications;
      })

  -- A poll for metrics never raises, so that its assertion never fails: it does nothing, or it hands
  -- out a published row of the tenant that has a post, with that post's id, and the only change to
  -- the tables is the time of the fetch on that row.
  pub start_publication_metrics_fetch_lem :
      (staleness : ℕ) (now : Instant) (db : Db)
      → (c : Option MetricsFetchContext) × (db' : Db) × (start_publication_metrics_fetch tenant
            staleness now db
          ≡ ok (c, db'))
        × Fetches now db c db'
  unfolding start_publication_metrics_fetch fetch_claimed mark_metrics_fetch_attempted
  start_publication_metrics_fetch_lem staleness now db =
      elim (Option-cases (claim_for_metrics_fetch tenant (now - staleness) db.publications)) [
        | inl e ↦ (none, db, rw e refl, refl)
        | inr (p, e) ↦
            let (i, w) = In-claim (now - staleness) db.publications p e in
            elim (Option-cases p.external_post_id) [
              | inl n ↦ absurd (ground arith)
              | inr (post, q) ↦
                  let s : is_published p.status ≡ true = ground arith in
                  (
                    some (record { publication_id = p.id; external_post_id = post }),
                    record db {
                      publications =
                          save (record p { metrics_fetched_at = some now; updated_at = now })
                            db.publications;
                    },
                    rw (e, s, q) refl,
                    (p, i, ground arith, ground arith, refl, q, refl),
                  )
            ]
      ]
