-- ===== src/Sample.antt =====
-- Small functions that behave as the documentation of the crates says, for the examples.
mod Codec
pub mod Disk
pub mod Hex
mod Receipts
pub mod Toy
pub mod Wallet
pub mod Simulator
pub mod Faithful
pub mod Bench
pub mod Chain
