-- ===== src/Tests.antt =====
-- Runs of the model on small inputs, and every theorem at such an input.
pub mod Data
pub mod Awards
pub mod Queue
pub mod Cache
pub mod Limits
pub mod Request
pub mod Games
pub mod Config
pub mod Drain
pub mod Network
pub mod Proxy
