-- ===== src/Job.antt =====
-- internal/services/job: the consumer of the outbox, the maintenance jobs and their repositories, and
-- the scheduler.
pub mod Outbox
pub mod Maintenance
pub mod Sessions
pub mod Blobs
pub mod Usage
pub mod Reader
pub mod Jobs
