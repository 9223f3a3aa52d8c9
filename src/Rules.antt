-- ===== src/Rules.antt =====
-- src/news_pipeline/rules: keyword rules over the text of an article.
pub mod Patterns
pub mod Matcher
pub mod Engine
pub mod Watchlist
mod Tests
