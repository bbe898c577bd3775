-- ===== src/Examples.antt =====
-- Concrete inputs, and the theorems at them.
pub mod Data
pub mod Graphs
pub mod Reports
pub mod Gates
pub mod Fleet
pub mod Requests
