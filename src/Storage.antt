-- ===== src/Storage.antt =====
-- The evidence storage of A4-evidence-storage: what it stores, how it records and how it verifies.
pub mod Keys
pub mod KeyShapes
pub mod Models
pub mod Store
pub mod Recorder
pub mod Verifier
pub mod Histories
mod Tests
