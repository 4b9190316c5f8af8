-- ===== src/Scenarios/Lives.antt =====
-- The lives of single rows under sequences of calls.
mod Items
mod Requests
mod Images
mod Templates
mod Drafts
mod Publications
