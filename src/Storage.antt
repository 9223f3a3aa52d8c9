-- ===== src/Storage.antt =====
-- src/news_pipeline/storage: the tables that the processing job fills, each as the list of its rows.
pub mod Processed
pub mod PushLog
