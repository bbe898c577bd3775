-- ===== src/Attack.antt =====
-- internal/attack/engine.go: the attack-path engine.
pub mod Escape
pub mod Text
pub mod Engine
pub mod Keeps
pub mod Linked
pub mod Justified
pub mod Sorted
pub mod Unbacked
pub mod Breach
pub mod Detected
