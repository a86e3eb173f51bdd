-- ===== src/Hal.antt =====
-- services/hal/internal/core: the HAL's data, its topics, the poller, and the loop that serves
-- configurations, controls, events and polls.
pub mod Data
pub mod Topics
pub mod Poller
pub mod State
pub mod Core
mod Tests
