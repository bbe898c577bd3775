-- ===== src/Checks.antt =====
-- internal/checks: the detection rules over a graph.
pub mod Check
pub mod Predicates
pub mod Containers
pub mod Pods
pub mod RbacChecks
pub mod NetworkChecks
pub mod Profile
pub mod Scan
pub mod Fires
pub mod FiresRbac
pub mod FiresNetwork
pub mod Sorted
pub mod Own
pub mod Included
