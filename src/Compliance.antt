-- ===== src/Compliance.antt =====
-- internal/compliance: framework packs, their evaluation and the evidence export.
pub mod Pack
pub mod Evaluate
pub mod Evidence
pub mod Counts
