-- ===== src/Compilations.antt =====
-- The compilations domain: domains/compilations/repository.py, service.py and router.py.
pub mod Queries
pub mod Service
pub mod Rendering
mod Tests
