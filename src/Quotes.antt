-- ===== src/Quotes.antt =====
-- src/quote_watcher: alert rules, their cooldown state and the alert engine.
pub mod Rule
pub mod State
pub mod Engine
pub mod Scan
pub mod Sector
pub mod Emit
pub mod ScanMessage
pub mod Jobs
pub mod Calendar
pub mod Ring
pub mod Indicator
pub mod Context
pub mod IndicatorContext
mod Tests
mod WatchTests
