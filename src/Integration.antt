-- ===== src/Integration.antt =====
-- tests/integration_tests.rs and the unit tests of src/lib.rs, on the model.
mod Buffers
mod Rings
mod Pools
pub mod Workers
