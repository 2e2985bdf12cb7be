-- ===== src/Clips.antt =====
-- The clips: domains/clips/repository.py (`Queries`), the request side of domains/clips/service.py and router.py
-- (`Service`), and the background transcoding (`Processing`).
pub mod Queries
pub mod Service
pub mod Processing
mod Tests
