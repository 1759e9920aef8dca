-- ===== src/Asw.antt =====
-- The demonstrator's application software (asw/scenarios_a3): `Minmax` is minmax.c and the
-- interrupt routine `ISR2_minmax`, `Contexts` is trace_contexts.c, and `Scenarios` is the function
-- `f` and the routines that the tasks call.
pub mod Minmax
pub mod Ranges
pub mod Contexts
pub mod Scenarios
