-- ===== src/Auth.antt =====
-- dealfinder/auth.py and dealfinder/tenancy.py: the key cache, token verification, users and
-- principals.
pub mod Jwks
pub mod Claims
pub mod Verify
mod Tests
