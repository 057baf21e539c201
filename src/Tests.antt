-- ===== src/Tests.antt =====
-- Concrete runs, and each theorem with hypotheses at an input that meets them.
pub mod Toy
mod Grid
