-- ===== src/Classifier.antt =====
-- src/news_pipeline/classifier: the importance of an enriched news item.
pub mod Rules
pub mod Importance
pub mod Decision
mod Tests
