-- ===== src/Softfloat.antt =====
-- src/softfloat.c: the wide integers, the round-and-pack step, and the operations on both formats.
pub mod Wide
pub mod Format
pub mod Round
pub mod Arith
pub mod Compare
pub mod Convert
pub mod Sum
