-- ===== src/Shadow.antt =====
-- services/shadow: simulated fills with a persistent history.
pub mod Engine
pub mod History
