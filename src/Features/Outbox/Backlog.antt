-- ===== src/Features/Outbox/Backlog.antt =====
-- About a relay and the backlog of a tenant.
use softbox_ai.Prelude.{
  ℕ, ◌+◌, ◌-◌, some, List, [], ◌∷◌, ◌++◌, append_assoc, append-nil, true, false, ◌≡◌, ◌≢◌, ◌⊎◌,
  ◌==◌, ◌∙◌, refl, sym, ap, subst, inl, inr, map, All, All-imp, some_inj, In, count, length,
  Bool-cases, arith,
}
use softbox_ai.Errors.{ok}
use softbox_ai.Ids.{Uuid, Instant}
use softbox_ai.Table.{get, save}
use softbox_ai.Table.Laws.{Distinct, get_of_Distinct, get-save_self, get-save_ne}
use softbox_ai.Table.Counts.{one_if, count-save}
use softbox_ai.Table.Sorting.{Distinct-save, In-save}
use softbox_ai.TaskQueue.Store.{enqueue}
use softbox_ai.UnitOfWork.{Db, OutboxEvent, event_row}
use softbox_ai.Features.Outbox.{
  is_unpublished, list_unpublished, mark_published, relay_all, relay_outbox_events_for_tenant,
}
use softbox_ai.Features.Outbox.Listed.{
  job_for, IsWaiting, list_unpublished-IsWaiting, list_unpublished-Distinct,
  length-list_unpublished,
}

still-IsWaiting :
    (t : Uuid) (x : OutboxEvent) (rows es : List OutboxEvent)
    → All (λ e. e.id ≢ x.id) es
    → All (IsWaiting t rows) es
    → All (IsWaiting t (save x rows)) es
still-IsWaiting t x rows [] n a = tt
still-IsWaiting t x rows (e ∷ es) n a =
    ((In-save x e rows n.0 a.0.0, a.0.1), still-IsWaiting t x rows es n.1 a.1)

-- The row of a relayed event afterwards.
abbrev IsRelayed : Uuid → Instant → List OutboxEvent → OutboxEvent → Type 0
IsRelayed t now rows e = get t e.id rows ≡ some (record e { published_at = some now })

-- The rows of other ids stand as they did.
abbrev KeepsOthers : List OutboxEvent → List OutboxEvent → List OutboxEvent → Type 0
KeepsOthers es rows rows' =
    (t i : Uuid) → All (λ (e : OutboxEvent). e.id ≢ i) es → get t i rows' ≡ get t i rows

relay_all_lem :
    (t : Uuid) (now : Instant) (new_id : Uuid → Uuid) (es : List OutboxEvent) (db : Db)
    → Distinct db.outbox_events
    → Distinct es
    → All (IsWaiting t db.outbox_events) es
    → (db' : Db) × (relay_all t now new_id es db ≡ ok (tt, db'))
      × (db'.task_queue ≡ db.task_queue ++ map (job_for t now new_id) es)
      × (count (is_unpublished t) db'.outbox_events + length es
          ≡ count (is_unpublished t) db.outbox_events)
      × All (IsRelayed t now db'.outbox_events) es
      × KeepsOthers es db.outbox_events db'.outbox_events
      × Distinct db'.outbox_events
unfolding relay_all mark_published enqueue
relay_all_lem t now new_id [] db d0 d a =
    (db, refl, sym (append-nil db.task_queue), omega arith, tt, (λ t' i n. refl), d0)
relay_all_lem t now new_id (e ∷ es) db d0 d a =
    let rows = db.outbox_events in
    let e' : OutboxEvent = record e { published_at = some now } in
    let mine : e.tenant_id ≡ t = ground (arith, a.0.1) in
    let stored : get t e.id rows ≡ some e =
      subst (λ x. get x e.id rows ≡ some e) mine (get_of_Distinct rows e d0 a.0.0) in
    let db1 : Db = record db {
      task_queue = db.task_queue ++ job_for t now new_id e ∷ [];
      outbox_events = save e' rows;
    } in
    let waits = still-IsWaiting t e' rows es d.0 a.1 in
    let (db', run, jobs, left, relayed, others, apart) =
      relay_all_lem t now new_id es db1 (Distinct-save e' rows d0) d.1 waits in
    let step = count-save (is_unpublished t) rows e e' d0 a.0.0 refl in
    let shut : is_unpublished t e' ≡ false = ground arith in
    (
      db',
      rw stored run,
      jobs
          ∙ append_assoc db.task_queue (job_for t now new_id e ∷ [])
              (map (job_for t now new_id) es),
      omega (arith, left, step, ap one_if shut, ap one_if a.0.1),
      (others t e.id d.0 ∙ get-save_self t e.id rows e e' stored refl mine, relayed),
      (λ t' i n. others t' i n.1 ∙ get-save_ne t' i rows e' n.0),
      apart,
    )

-- A relayed event is listed by no later relay of the rows.
not_listed :
    (t : Uuid) (now : Instant) (limit : ℕ) (rows : List OutboxEvent) (e : OutboxEvent)
    → Distinct rows
    → IsRelayed t now rows e
    → All (λ (x : OutboxEvent). x.id ≢ e.id) (list_unpublished t limit rows)
not_listed t now limit rows e d r =
    All-imp (λ x w. apart x w) (list_unpublished t limit rows)
      (list_unpublished-IsWaiting t limit rows)
  where
    apart : (x : OutboxEvent) → IsWaiting t rows x → x.id ≢ e.id
    apart x w same =
        let mine : x.tenant_id ≡ t = ground (arith, w.1) in
        let found : get t e.id rows ≡ some x =
          subst (λ i. get t i rows ≡ some x) same
            (subst (λ u. get u x.id rows ≡ some x) mine (get_of_Distinct rows x d w.0)) in
        let waiting : is_unpublished t (record e { published_at = some now }) ≡ true =
          ap (is_unpublished t) (some_inj _ x (sym r ∙ found)) ∙ w.1 in
        ground (arith, waiting)

In-or-apart :
    (i : Uuid) (es : List OutboxEvent)
    → In i (map (λ e. e.id) es) ⊎ All (λ (e : OutboxEvent). e.id ≢ i) es
In-or-apart i [] = inr tt
In-or-apart i (e ∷ es) = elim (Bool-cases (e.id == i)) [
  | inl same ↦ inl (inl (ground (arith, same)))
  | inr ne ↦ elim (In-or-apart i es) [
    | inl m ↦ inl (inr m)
    | inr n ↦ inr ((λ q. ground (arith, ne, q)), n)
  ]
]

abbrev pub Relayed :
    (t : Uuid) (limit : ℕ) (now : Instant) (new_id : Uuid → Uuid) (db : Db) → Type 0
Relayed t limit now new_id db =
    let listed = list_unpublished t limit db.outbox_events in
    (db' : Db) × (relay_outbox_events_for_tenant t limit now new_id db ≡ ok (length listed, db'))
    × (db'.task_queue ≡ db.task_queue ++ map (job_for t now new_id) listed)
    × (count (is_unpublished t) db'.outbox_events
        ≡ count (is_unpublished t) db.outbox_events - limit)
    × All (IsRelayed t now db'.outbox_events) listed
    × ((u i : Uuid)
        → In i (map (λ e. e.id) listed) ⊎ (get u i db'.outbox_events ≡ get u i db.outbox_events))
    × ((later : ℕ)
        → All
            (λ (e : OutboxEvent).
              All (λ (x : OutboxEvent). x.id ≢ e.id) (list_unpublished t later db'.outbox_events))
            listed)

-- With distinct event ids a relay always returns. It appends one job for each event that it lists, in
-- the order of the list, pending and due at once, and tells how many. Each of these events is then
-- stored as published at that time, so that no relay of the rows that it leaves lists one of them
-- again, whatever its limit; every row with another id is as it was; and the unpublished events of
-- the tenant become fewer by the limit as far as there are so many.
pub relay_outbox_events_for_tenant_lem :
    (t : Uuid) (limit : ℕ) (now : Instant) (new_id : Uuid → Uuid) (db : Db)
    → Distinct db.outbox_events
    → Relayed t limit now new_id db
unfolding relay_outbox_events_for_tenant
relay_outbox_events_for_tenant_lem t limit now new_id db d =
    let rows = db.outbox_events in
    let listed = list_unpublished t limit rows in
    let (db', run, jobs, left, relayed, others, apart) =
      relay_all_lem t now new_id listed db d (list_unpublished-Distinct t limit rows d)
        (list_unpublished-IsWaiting t limit rows) in
    (
      db',
      rw run refl,
      jobs,
      omega (arith, left, length-list_unpublished t limit rows),
      relayed,
      (λ u i. elim (In-or-apart i listed) [ inl m ↦ inl m | inr n ↦ inr (others u i n) ]),
      (λ later. All-imp (λ e r. not_listed t now later db'.outbox_events e apart r) listed relayed),
    )
