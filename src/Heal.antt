-- ===== src/Heal.antt =====
-- src/heal: the objects that wait for healing, the memory of the scanner, and the healing of an object.
pub mod Mrf
pub mod Scanner
pub mod Worker
pub mod Missing
pub mod Repair
pub mod Drain
pub mod Queue
pub mod Scans
mod Tests
