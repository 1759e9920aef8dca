-- ===== src/Ctrace.antt =====
-- The C-Trace interface: firmware/emsa5/hal/ct_csr.h (the command register), hal/ctrace.h (the
-- functions that emit trace messages) and asw/ctrace_test/ctrace_test.c (the test of them).
-- `Protocol` and `Call` describe the receiving side, independently of the code; `Told` puts the writes
-- of several parts of a program together.
pub mod Register
pub mod Emit
pub mod Protocol
pub mod Word
pub mod Command
pub mod Plain
pub mod Datum
pub mod Call
pub mod Stream
pub mod Test
pub mod Told
