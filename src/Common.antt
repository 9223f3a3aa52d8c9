-- ===== src/Common.antt =====
-- src/shared/common/enums.py and src/news_pipeline/common: the values that all parts exchange.
pub mod Enums
pub mod Ordered
pub mod Contracts
pub mod Coerce
mod Tests
