-- ===== src/Tests.antt =====
-- The theorems at concrete inputs.
mod Incomplete
mod Contracts
mod Answers
mod Metrics
mod Dates
mod Runs
mod Golden
mod Database
mod Trail
mod Cases
mod Rules
mod Documents
mod Screening
mod Services
mod Registry
