-- ===== src/Compliance.antt =====
-- dealfinder/compliance.py: the sliding-window rate limiter, the data-subject store and the abuse
-- detector.
pub mod Window
pub mod Subjects
pub mod Abuse
mod Tests
