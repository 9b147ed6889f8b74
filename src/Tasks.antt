-- ===== src/Tasks.antt =====
-- pallets/tasks: the state in `State`, the operations in `Core`, `Events`, `Calls`, `Interface`,
-- `Schedule` and `Batches`, and what is proved of them in the modules below these.
pub mod Queue
pub mod State
pub mod Core
pub mod Events
pub mod Calls
pub mod Interface
pub mod Schedule
pub mod Batches
pub mod Assignment
pub mod Reach
pub mod Tests
