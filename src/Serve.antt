-- ===== src/Serve.antt =====
-- dealfinder/serve.py: the middlewares, the readiness checks, the account routes, the stream of search
-- results, and what a search leaves in the catalog.
pub mod Stream
pub mod Shopper
pub mod Edge
pub mod Ready
pub mod Accounts
mod Tests
