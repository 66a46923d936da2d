-- ===== src/Scanner/Soundness.antt =====
-- A scan keeps the database sound: proved along the code of Scanner/Scan.antt, rule by rule.
pub mod Rules
pub mod Effects
pub mod Parts
pub mod Deco
pub mod Whole
pub use Rules.{Keeps}
pub use Whole.{scan_and_update-IsSound}
