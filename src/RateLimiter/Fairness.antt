-- ===== src/RateLimiter/Fairness.antt =====
-- About the calls that one window lets through.
use softbox_ai.Prelude.{
  ℕ, suc, ◌+◌, ◌≤◌, ◌<◌, ◌≡◌, ◌⊎◌, inl, inr, refl, ap, String, List, [], ◌∷◌, Bool, true, false,
  ltb, length, All, Bool-cases, arith, if◌then◌else◌, ==_refl, str_eq_iff,
}
use softbox_ai.Ids.{Uuid, Instant}
use softbox_ai.RateLimiter.{RateLimitWindow, WindowKey, fixed_window_start, is_of, upsert, allow}

-- The count of the key's row, 0 without one.
unfoldable pub used : WindowKey → List RateLimitWindow → ℕ
used k [] = 0
used k (r ∷ rows) = let rest = used k rows in if is_of k r then r.count else rest

-- The calls that are let through, of one after the other.
pub allowed : (Instant → Uuid) → Uuid → String → ℕ → ℕ → List Instant → List RateLimitWindow → ℕ
unfolding allow
allowed ids tenant bucket limit window [] rows = 0
allowed ids tenant bucket limit window (now ∷ nows) rows =
    let call = allow (ids now) tenant bucket limit window now rows in
    let rest = allowed ids tenant bucket limit window nows call.1 in
    if call.0 then suc rest else rest

abbrev Counted : ℕ → ℕ → Bool → ℕ → Type 0
Counted limit u b u' =
    (((b ≡ true) × (u' ≡ u + 1)) × ((u < limit) ⊎ (u ≡ 0)))
    ⊎ (((b ≡ false) × (u' ≡ u)) × (limit ≤ u))

upsert-Counted :
    (i : Uuid) (k : WindowKey) (limit : ℕ) (rows : List RateLimitWindow)
    → Counted limit (used k rows) (upsert i k limit rows).0 (used k (upsert i k limit rows).1)
unfolding upsert used
upsert-Counted i k limit [] = inl (
  (
    refl,
    rw (==_refl k.tenant_id, (str_eq_iff k.bucket k.bucket).1 refl, ==_refl k.window_start) refl,
  ),
  inr refl,
)
upsert-Counted i k limit (r ∷ rows) = elim (Bool-cases (is_of k r)) [
  | inl e ↦ elim (Bool-cases (ltb r.count limit)) [
    | inl f ↦ rw (e, f, e) (inl ((refl, refl), inl (ground (arith, f))))
    | inr f ↦ rw (e, f, e) (inr ((refl, refl), ground (arith, f)))
  ]
  | inr e ↦ rw (e, e) (upsert-Counted i k limit rows)
]

-- Of calls that start in the window of the key: what they use up.
abbrev Shared : ℕ → ℕ → ℕ → ℕ → Type 0
Shared limit n u a = (a + u ≤ limit) × ((a ≡ n) ⊎ (a + u ≡ limit))

Shared-step :
    (limit n u u' a : ℕ) (b : Bool)
    → 1 ≤ limit
    → u ≤ limit
    → Counted limit u b u'
    → (u' ≤ limit → Shared limit n u' a)
    → Shared limit (suc n) u (if b then suc a else a)
Shared-step limit n u u' a b one below (inl ((e, q), room)) ih =
    let roomy : u' ≤ limit = elim room [
      | inl r ↦ omega (arith, q, r)
      | inr z ↦ omega (arith, q, z, one)
    ] in
    let (most, all) = ih roomy in
    rw e (
      omega (arith, most, q),
      elim all [ inl p ↦ inl (ap suc p) | inr p ↦ inr (omega (arith, p, q)) ],
    )
Shared-step limit n u u' a b one below (inr ((e, q), full)) ih =
    let (most, all) = ih (omega (arith, q, below)) in
    rw e (omega (arith, most, q), inr (omega (arith, most, q, full)))

allowed-Shared :
    (ids : Instant → Uuid) (tenant : Uuid) (bucket : String) (limit window w : ℕ)
    (nows : List Instant) (rows : List RateLimitWindow)
    → All (λ now. fixed_window_start now window ≡ w) nows
    → 1 ≤ limit
    → used (record { tenant_id = tenant; bucket = bucket; window_start = w }) rows ≤ limit
    → Shared limit
        (length nows)
        (used (record { tenant_id = tenant; bucket = bucket; window_start = w }) rows)
        (allowed ids tenant bucket limit window nows rows)
unfolding allowed allow
allowed-Shared ids tenant bucket limit window w [] rows same one below =
    (omega (arith, below), inl refl)
allowed-Shared ids tenant bucket limit window w (now ∷ nows) rows same one below =
    let k : WindowKey = record { tenant_id = tenant; bucket = bucket; window_start = w } in
    let call = upsert (ids now) k limit rows in
    rw same.0 (
      Shared-step limit (length nows) (used k rows) (used k call.1) _ call.0 one below
        (upsert-Counted (ids now) k limit rows)
        (allowed-Shared ids tenant bucket limit window w nows call.1 same.1 one))

-- Calls one after the other in one window in which the tenant's bucket has no row yet, under a limit of at least
-- one: no more than the limit are let through, and either all of them are or exactly as many as the limit.
pub allow_lem :
    (ids : Instant → Uuid) (tenant : Uuid) (bucket : String) (limit window w : ℕ)
    (nows : List Instant) (rows : List RateLimitWindow)
    → All (λ now. fixed_window_start now window ≡ w) nows
    → 1 ≤ limit
    → used (record { tenant_id = tenant; bucket = bucket; window_start = w }) rows ≡ 0
    → (allowed ids tenant bucket limit window nows rows ≤ limit)
      × ((allowed ids tenant bucket limit window nows rows ≡ length nows)
          ⊎ (allowed ids tenant bucket limit window nows rows ≡ limit))
allow_lem ids tenant bucket limit window w nows rows same one fresh =
    let (most, all) =
      allowed-Shared ids tenant bucket limit window w nows rows same one (omega (arith, fresh)) in
    (omega (arith, most), elim all [ inl e ↦ inl e | inr e ↦ inr (omega (arith, e, fresh)) ])
