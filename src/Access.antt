-- ===== src/Access.antt =====
-- internal/services/access: who may read a file, the queries that answer with a URL of it, and the
-- tickets that stand for such a query.
pub mod File
pub mod Ticket
pub mod Token
pub mod Queries
pub mod Idempotency
pub mod Request
pub mod Issue
pub mod Repositories
