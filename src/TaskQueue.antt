-- ===== src/TaskQueue.antt =====
-- src/app/infrastructure/persistence/task_queue.py, over the rows of `task_queue_jobs`. The
-- rows that another open transaction has locked are not modelled: `SKIP LOCKED` skips nothing.
pub mod Store
pub mod Claim
pub mod Fail
pub mod Budget
pub mod Reap
