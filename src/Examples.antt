-- ===== src/Examples.antt =====
-- Tests of the definitions, and the theorems at concrete inputs, by part of the program.
mod Upload
mod Completion
mod Requests
mod Access
mod Tokens
mod Admin
mod Outbox
mod Jobs
mod Administration
