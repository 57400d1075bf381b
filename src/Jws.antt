-- ===== src/Jws.antt =====
-- src/jackdaw/services/jws.py.
pub mod Keys
pub mod Kids
pub mod Verify
pub mod Soundness
pub mod Effects
pub mod Samples
mod Tests
