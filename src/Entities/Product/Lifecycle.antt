-- ===== src/Entities/Product/Lifecycle.antt =====
-- The life of a product, src/app/entities/product.py, under any sequence of calls.
use softbox_ai.Prelude.{◌≡◌, Bool, true, false, List, refl, arith}
use softbox_ai.Errors.{Result, ok}
use softbox_ai.Ids.{Instant}
use softbox_ai.Entities.History.{history, history_inv}
use softbox_ai.Entities.Product.{
  Product, ProductStatus, ready, needs_attention, mark_ready, mark_needs_attention,
}

pub data Call : Type 0 where
  complete regress : Instant → Call

pub call : Call → Product → Result Product
unfolding mark_ready mark_needs_attention
call (complete now) s = mark_ready now s
call (regress now) s = mark_needs_attention now s

abbrev pub was_ready : ProductStatus → Bool
was_ready ready = true
was_ready needs_attention = true
was_ready _ = false

abbrev pub Pinned : Product → Product → Type 0
Pinned s t =
    (t.spec_version_id ≡ s.spec_version_id)
    × (t.category_id ≡ s.category_id)
    × (t.attributes ≡ s.attributes)

Pinned-call :
    (s : Product) (m : Call) (t t' : Product) → Pinned s t → call m t ≡ ok t' → Pinned s t'
unfolding call
Pinned-call s m t t' p h = ground arith

ready-call :
    (m : Call) (t t' : Product)
    → was_ready t.status ≡ true
    → call m t ≡ ok t'
    → was_ready t'.status ≡ true
unfolding call
ready-call m t t' p h = ground arith

-- No call moves a product off the spec version, category and attributes it was made with.
pub history-Pinned : (s : Product) (ms : List Call) → Pinned s (history call s ms)
history-Pinned s ms = history_inv call (Pinned s) (Pinned-call s) s ms (refl, refl, refl)

-- A product that has been ready is never a draft, or anything else but ready or in need of
-- attention, again.
pub history-was_ready :
    (s : Product) (ms : List Call)
    → was_ready s.status ≡ true
    → was_ready (history call s ms).status ≡ true
history-was_ready s ms p = history_inv call (λ t. was_ready t.status ≡ true) ready-call s ms p
