-- ===== src/Api/Report/History.antt =====
-- `AppendStatus` against a description of it that reads a report from its newest status back.
pub mod Newest
pub mod Invariants
pub mod Kind
