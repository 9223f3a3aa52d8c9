-- ===== src/Config.antt =====
-- src/news_pipeline/config/schema.py: the watchlists and their checks. The rules' section stands in
-- Rules/Patterns.
pub mod Watchlist
pub mod Quotes
mod Tests
