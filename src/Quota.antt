-- ===== src/Quota.antt =====
-- src/app/infrastructure/persistence/quota_reservation_repository.py, over the rows of
-- `quota_reservations`.
pub mod Reservations
pub mod Limits
pub mod Units
