-- ===== src/Feed.antt =====
-- The update feed: src/server/services/update_feed_service.ts over release_version.ts.
pub mod Version
pub mod Service
mod Order
mod Newest
mod Offer
mod Tests
