-- ===== src/Push.antt =====
-- src/shared/push: sending messages to channels.
pub mod Burst
pub mod Retry
pub mod Dispatcher
pub mod Message
mod Tests
