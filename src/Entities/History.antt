-- ===== src/Entities/History.antt =====
-- The life of one row under any sequence of method calls: a call that raises leaves the row as the
-- transaction found it (`UnitOfWork.__aexit__` rolls back), a call that returns replaces it.
use softbox_ai.Prelude.{List, [], ◌∷◌, ◌≡◌, refl}
use softbox_ai.Errors.{Result, ok, err}

abbrev pub settle {ℓ} : {S : Type ℓ} → S → Result S → S
settle s (ok s') = s'
settle s (err e) = s

module _ {ℓ κ} {S : Type ℓ} {M : Type κ} where
  unfoldable pub history : (M → S → Result S) → S → List M → S
  history call s [] = s
  history call s (m ∷ ms) = history call (settle s (call m s)) ms

module _ {ℓ κ ι} {S : Type ℓ} {M : Type κ} (call : M → S → Result S) (P : S → Type ι) where
  settle_inv : (s : S) (r : Result S) → ((s' : S) → r ≡ ok s' → P s') → P s → P (settle s r)
  settle_inv s (ok s') keep h = keep s' refl
  settle_inv s (err e) keep h = h

  -- What every returning call keeps holds along the whole life.
  pub history_inv :
      ((m : M) (s s' : S) → P s → call m s ≡ ok s' → P s')
      → (s : S) (ms : List M) → P s
      → P (history call s ms)
  unfolding history
  history_inv keep s [] h = h
  history_inv keep s (m ∷ ms) h =
      history_inv keep (settle s (call m s)) ms
        (settle_inv s (call m s) (λ s' e. keep m s s' h e) h)

-- A row that no call changes stays as it is for ever.
pub history_fixed {ℓ κ} :
    {S : Type ℓ} {M : Type κ} (call : M → S → Result S) (s : S)
    → ((m : M) → settle s (call m s) ≡ s)
    → (ms : List M) → history call s ms ≡ s
unfolding history
history_fixed call s still [] = refl
history_fixed call s still (m ∷ ms) = rw (still m) (history_fixed call s still ms)
