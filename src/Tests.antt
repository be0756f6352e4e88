-- ===== src/Tests.antt =====
-- Concrete inputs on which the theorems about backend/app are applied.
mod Lifecycle
mod Sla
mod Opportunity
mod Queue
mod Dispatcher
mod Identity
mod Submission
mod Dedup
mod Decision
mod Pipeline
mod Records
mod Privacy
mod Uploads
