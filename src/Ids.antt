-- ===== src/Ids.antt =====
-- Identifiers and times. A UUID is known by equality alone, and is a number here; every id type of
-- src/app/shared/ids.py is one. A `datetime` is its microseconds since the Unix epoch, and a
-- `timedelta` a number of microseconds.
use softbox_ai.Prelude.{ℕ, ◌*◌}

abbrev pub Uuid : Type 0
Uuid = ℕ

abbrev pub Instant : Type 0
Instant = ℕ

abbrev pub seconds : ℕ → ℕ
seconds n = n * 1000000
