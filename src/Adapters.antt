-- ===== src/Adapters.antt =====
-- src/adapters: the outputs of the producers, mapped to the seam.
pub mod Probatio
pub mod Custos
pub mod XvmCustos
mod Tests
