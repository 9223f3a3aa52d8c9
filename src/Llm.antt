-- ===== src/Llm.antt =====
-- src/news_pipeline/llm: the daily budget, the tiers and the choice of the client.
pub mod Cost
mod Tests
pub mod Client
pub mod Extractors
pub mod Pipeline
pub mod Prompts
pub mod Tiers
