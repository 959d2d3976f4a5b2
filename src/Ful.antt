-- ===== src/Ful.antt =====
-- The `unico-ful` crate: stackful coroutines, symmetric and asymmetric.
pub mod Extend
pub mod Raw
pub mod Effect
pub mod Coroutine
pub mod Sym
pub mod Asym
pub mod Builder
