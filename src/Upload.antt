-- ===== src/Upload.antt =====
-- The upload service: internal/services/upload.
pub mod Status
pub mod Mode
pub mod Hash
pub mod Session
pub mod Validation
pub mod Lifecycle
pub mod Parts
pub mod Auth
pub mod Policy
pub mod Complete
pub mod Rows
pub mod Tables
pub mod Statements
pub mod World
pub mod View
pub mod Repositories
pub mod Materialize
pub mod Completion
pub mod Handlers
