-- ===== src/Shop.antt =====
-- dealfinder/shop.py: the eBay box, the scorer of live offers, and the shopper search.
pub mod Ebay
pub mod Scoring
pub mod Search
mod Tests
